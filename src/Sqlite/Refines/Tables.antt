-- ===== src/Sqlite/Refines/Tables.antt =====
-- Reading a table after the statements of `apply`.
use loop_skill.Prelude.{
  List, String, [], arith, eq_iff, if◌then◌else◌, none, refl, some, ◌++◌, ◌==◌, ◌∷◌, ◌≡◌,
}
use loop_skill.Store.{SequencedEvent, Entry, find, has_key, record_entry}
use loop_skill.Sqlite.Write.{event_rows}
use loop_skill.Sqlite.Database.{EventRow, loop_events}

module _ {ℓ} {V : Type ℓ} where
  pub find-record_entry :
      (l o : String) (new : Entry V) (es : List (Entry V))
      → find l o (record_entry new es) ≡ (if has_key l o new then some new else find l o es)
  unfolding find record_entry
  find-record_entry l o new [] = refl
  find-record_entry l o new (e ∷ es) = ground (
    arith,
    find-record_entry l o new es,
    eq_iff e.loop_ref l,
    eq_iff e.operation_id o,
    eq_iff e.loop_ref new.loop_ref,
    eq_iff e.operation_id new.operation_id,
    eq_iff new.loop_ref l,
    eq_iff new.operation_id o,
  )

  pub find-append :
      (l o : String) (new : Entry V) (es : List (Entry V))
      → find new.loop_ref new.operation_id es ≡ none
      → find l o (es ++ (new ∷ [])) ≡ (if has_key l o new then some new else find l o es)
  unfolding find
  find-append l o new [] absent = refl
  find-append l o new (e ∷ es) absent = ground (
    arith,
    find-append l o new es,
    eq_iff e.loop_ref l,
    eq_iff e.operation_id o,
    eq_iff e.loop_ref new.loop_ref,
    eq_iff e.operation_id new.operation_id,
    eq_iff new.loop_ref l,
    eq_iff new.operation_id o,
  )

pub loop_events-append :
    (l : String) (rows more : List EventRow)
    → loop_events l (rows ++ more) ≡ loop_events l rows ++ loop_events l more
unfolding loop_events
loop_events-append l [] more = refl
loop_events-append l (row ∷ rows) more = ground (arith, loop_events-append l rows more)

pub loop_events-event_rows :
    (l k o : String) (es : List SequencedEvent)
    → loop_events l (event_rows k o es) ≡ (if k == l then es else [])
unfolding loop_events event_rows
loop_events-event_rows l k o [] = ground arith
loop_events-event_rows l k o (e ∷ es) = ground (arith, loop_events-event_rows l k o es)
