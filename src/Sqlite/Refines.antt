-- ===== src/Sqlite/Refines.antt =====
-- The durable store of v4_persistence/sqlite_store.py as an implementation of the in-memory store
-- of v4_alpha/store.py.
pub mod Tables
pub mod Reduced
pub mod Written
pub mod Commits
pub mod Answers
use loop_skill.Sqlite.Database.{loop_events, rejected, accepted, snapshot_of, Database, Recorded}
use loop_skill.Protocol.Outcome.{Code}
use loop_skill.Prelude.{Option, String, lookup, none, some, ◌≡◌}
use loop_skill.Store.{events_of, Store, ApplyResult, Entry, find}

abbrev pub accepted_part : Option (Entry Recorded) → Option (Entry ApplyResult)
accepted_part none = none
accepted_part (some e) = elim e.value [
  | accepted result ↦ some (record {
    loop_ref = e.loop_ref;
    operation_id = e.operation_id;
    request_digest = e.request_digest;
    value = result;
  })
  | rejected code ↦ none
]

abbrev pub rejected_part : Option (Entry Recorded) → Option (Entry Code)
rejected_part none = none
rejected_part (some e) = elim e.value [
  | accepted result ↦ none
  | rejected code ↦ some (record {
    loop_ref = e.loop_ref;
    operation_id = e.operation_id;
    request_digest = e.request_digest;
    value = code;
  })
]

-- the tables hold what the dictionaries hold
pub record Represents (db : Database) (st : Store) : Type 0 where
  pub snapshots : (loop_ref : String) → snapshot_of loop_ref db ≡ lookup loop_ref st.snapshots
  pub events : (loop_ref : String) → loop_events loop_ref db.events ≡ events_of st loop_ref
  pub accepted :
      (loop_ref operation_id : String)
      → accepted_part (find loop_ref operation_id db.operations)
        ≡ find loop_ref operation_id st.accepted
  pub rejected :
      (loop_ref operation_id : String)
      → rejected_part (find loop_ref operation_id db.operations)
        ≡ find loop_ref operation_id st.rejected
