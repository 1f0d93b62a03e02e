-- ===== src/Store.antt =====
-- codex-loop-prompt-architect/scripts/loop_architect/v4_alpha/store.py: the reference in-memory
-- store, one atomic commit object for each loop.
mod Ledger
pub mod Replay
pub mod Atomic
pub mod Integrity
pub mod Blobs
pub mod Cas
pub mod Honest
pub mod Refusal
mod Mode
use loop_skill.Kernel.Reduce.{reduce_command}
use loop_skill.Protocol.Validate.{validate_command, command_digest}
use loop_skill.Protocol.Value.{Value}
use loop_skill.Protocol.Outcome.{
  err, raise_if, Boundary, Code, Result, after_commit_before_response, after_reduce_before_commit,
  before_reduce, idempotency_conflict, injected_crash, internal_invariant_violation, ok, rejection,
  stale_loop_revision, ◌>>=◌, ◌>>◌,
}
use loop_skill.Protocol.Envelope.{AuthorityContext, Command, Event, EventType, Runtime}
use loop_skill.Prelude.{
  map, Bool, Dict, List, Option, String, [], eqb, false, if◌then◌else◌, insert, length, lookup,
  none, not, some, true, ℕ, ◌++◌, ◌+◌, ◌==◌, ◌||◌, ◌∷◌,
}
use loop_skill.Kernel.State.{Snapshot}
unfoldable pub use Ledger.*
unfoldable pub use Mode.{is_malformed}

pub record SequencedEvent : Type 0 where
  pub event : Event
  pub sequence : ℕ

pub record ApplyResult : Type 0 where
  pub operation_id : String
  pub loop_ref : String
  pub loop_revision : ℕ
  pub event_types : List EventType
  pub response : Dict Value
  pub snapshot_digest : String
  pub replayed : Bool

-- `InMemoryStore`; the operations on its blobs are in Store/Blobs
pub record Store : Type 0 where
  pub snapshots : Dict Snapshot
  pub events : Dict (List SequencedEvent)
  pub accepted : List (Entry ApplyResult)
  pub rejected : List (Entry Code)
  pub blobs : Dict (List ℕ)
  pub commit_count : ℕ

-- `{**event, "sequence": len(existing) + index + 1}` from an index
unfoldable pub sequence_from : ℕ → List Event → List SequencedEvent
sequence_from n [] = []
sequence_from n (e ∷ es) = record { event = e; sequence = n + 1 } ∷ sequence_from (n + 1) es

abbrev pub listed : Option (List SequencedEvent) → List SequencedEvent
listed none = []
listed (some es) = es

-- `self._events.get(loop_ref, [])`
abbrev pub events_of : Store → String → List SequencedEvent
events_of st loop_ref = listed (lookup loop_ref st.events)

abbrev pub revision_of : Option Snapshot → ℕ
revision_of none = 0
revision_of (some s) = s.loop_revision

abbrev pub malformed_current : Option Snapshot → Bool
malformed_current none = false
malformed_current (some s) = is_malformed s

-- `if fault_at == boundary: raise InjectedCrash(fault_at)`
abbrev pub crash_at : Boundary → Option Boundary → Result (Unit {0})
crash_at boundary none = ok tt
crash_at Boundary.before_reduce (some Boundary.before_reduce) =
    err (injected_crash Boundary.before_reduce)
crash_at Boundary.before_reduce (some _) = ok tt
crash_at Boundary.after_reduce_before_commit (some Boundary.after_reduce_before_commit) =
    err (injected_crash Boundary.after_reduce_before_commit)
crash_at Boundary.after_reduce_before_commit (some _) = ok tt
crash_at Boundary.after_commit_before_response (some Boundary.after_commit_before_response) =
    err (injected_crash Boundary.after_commit_before_response)
crash_at Boundary.after_commit_before_response (some _) = ok tt

-- what a commit writes
pub record Commit : Type 0 where
  pub candidate : Snapshot
  pub pending : List Event
  pub result : ApplyResult

-- the record of an accepted operation
abbrev pub accepted_entry : Command → String → Commit → Entry ApplyResult
accepted_entry c digest new = record {
  loop_ref = c.subject.loop_ref;
  operation_id = c.operation_id;
  request_digest = digest;
  value = new.result;
}

-- the record of a rejected operation
abbrev pub rejected_entry : Command → String → Code → Entry Code
rejected_entry c digest code = record {
  loop_ref = c.subject.loop_ref;
  operation_id = c.operation_id;
  request_digest = digest;
  value = code;
}

-- `snapshot_digest` encodes a whole snapshot; its encoding is a parameter
module _ (rt : Runtime) (ctx : AuthorityContext) (snapshot_digest : Snapshot → Result String) where
  -- the `try` block up to the commit
  unfoldable pub prepare : Store → Command → Option Boundary → Result Commit
  prepare st c fault_at = do
    let current = lookup c.subject.loop_ref st.snapshots
    raise_if (malformed_current current) internal_invariant_violation
    validate_command rt c
    raise_if (not (eqb (revision_of current) c.expected_loop_revision)) stale_loop_revision
    crash_at Boundary.before_reduce fault_at
    r ← reduce_command rt ctx c current
    crash_at Boundary.after_reduce_before_commit fault_at
    digest ← snapshot_digest r.snapshot
    ok (record {
      candidate = r.snapshot;
      pending = r.events;
      result = record {
        operation_id = c.operation_id;
        loop_ref = c.subject.loop_ref;
        loop_revision = r.snapshot.loop_revision;
        event_types = map (λ (e : Event). e.kind) r.events;
        response = r.response;
        snapshot_digest = digest;
        replayed = false;
      };
    })

  -- the commit: snapshot, events and idempotency result together
  unfoldable pub commit : Store → Command → String → Commit → Store
  commit st c digest new = record st {
    snapshots = insert c.subject.loop_ref new.candidate st.snapshots;
    events =
        insert c.subject.loop_ref
          (events_of st c.subject.loop_ref
            ++ sequence_from (length (events_of st c.subject.loop_ref)) new.pending)
          st.events;
    accepted = record_entry (accepted_entry c digest new) st.accepted;
    commit_count = st.commit_count + 1;
  }

  -- `except ProtocolRejection`: the rejection is recorded and raised again
  pub record_rejection : Store → Command → String → Code → Store
  record_rejection st c digest code = record st {
    rejected = record_entry (rejected_entry c digest code) st.rejected;
  }

  unfoldable pub finish :
      Store → Command → String → Option Boundary → Result Commit → Store × Result ApplyResult
  finish st c digest fault_at (ok new) = (
    commit st c digest new,
    crash_at Boundary.after_commit_before_response fault_at >> ok new.result,
  )
  finish st c digest fault_at (err (rejection code)) =
      (record_rejection st c digest code, err (rejection code))
  finish st c digest fault_at (err e) = (st, err e)

  -- the digest of a recorded operation, the command's own and the calculated one are one
  abbrev pub conflicts : String → Command → String → Bool
  conflicts recorded c digest = not (recorded == digest) || not (c.request_digest == digest)

  unfoldable pub answer_accepted :
      Store → Command → String → Entry ApplyResult → Store × Result ApplyResult
  answer_accepted st c digest e = (
    st,
    if conflicts e.request_digest c digest
        then err (rejection idempotency_conflict)
        else ok (record (e.value) { replayed = true }),
  )

  unfoldable pub answer_rejected :
      Store → Command → String → Entry Code → Store × Result ApplyResult
  answer_rejected st c digest e = (
    st,
    if conflicts e.request_digest c digest
        then err (rejection idempotency_conflict)
        else err (rejection e.value),
  )

  unfoldable pub fresh :
      Store → Command → String → Option Boundary → Option (Entry Code) → Store × Result ApplyResult
  fresh st c digest fault_at (some e) = answer_rejected st c digest e
  fresh st c digest fault_at none = finish st c digest fault_at (prepare st c fault_at)

  unfoldable pub known :
      Store
      → Command
      → String
      → Option Boundary
      → Option (Entry ApplyResult)
      → Store × Result ApplyResult
  known st c digest fault_at (some e) = answer_accepted st c digest e
  known st c digest fault_at none =
      fresh st c digest fault_at (find c.subject.loop_ref c.operation_id st.rejected)

  unfoldable pub with_digest :
      Store → Command → Option Boundary → Result String → Store × Result ApplyResult
  with_digest st c fault_at (err e) = (st, err e)
  with_digest st c fault_at (ok digest) =
      known st c digest fault_at (find c.subject.loop_ref c.operation_id st.accepted)

  -- `InMemoryStore.apply`
  unfoldable pub apply : Store → Command → Option Boundary → Store × Result ApplyResult
  apply st c fault_at = with_digest st c fault_at (command_digest rt c)

unfoldable pub empty_store : Store
empty_store = record {
  snapshots = [];
  events = [];
  accepted = [];
  rejected = [];
  blobs = [];
  commit_count = 0;
}
