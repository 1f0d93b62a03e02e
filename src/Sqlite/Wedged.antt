-- ===== src/Sqlite/Wedged.antt =====
-- `apply` of v4_persistence/sqlite_store.py handles InjectedCrash, ProtocolRejection and
-- sqlite3.DatabaseError, and no other exception: PersistenceCorruption leaves the transaction open.
use loop_skill.Protocol.Validate.{command_digest}
use loop_skill.Store.{find, ApplyResult}
use loop_skill.Sqlite.Database.{
  Answer, Failure, crash, protocol, corruption, database_error, raised, returned, Database, Durable,
}
use loop_skill.Protocol.Outcome.{Result, err, ok}
use loop_skill.Protocol.Envelope.{Command}
use loop_skill.Prelude.{
  Bool, any, true, ◌||◌, [], ◌∷◌, ap, arith, subst, sym, ◌∙◌, List, Option, String, false, none,
  refl, some, ◌≡◌,
}
use loop_skill.Sqlite.Apply.{
  Connection, answer, apply, attempt, before, begin, left_open, settle, settle_raised, with_begun,
  with_digest,
}
use loop_skill.Sqlite.Outbox.{claim}
use loop_skill.Sqlite.Calls.{put, Call, run, step, claim_attempt, in_transaction, put_blob}
use loop_skill.Sqlite.Wire.{Host}
use loop_skill.Sqlite.Write.{run_new}

both_false : (a b : Bool) → (a || b) ≡ false → (a ≡ false) × (b ≡ false)
both_false true b h = cc
both_false false b h = (refl, h)

-- a transaction is open on the connection
abbrev pub IsOpen : Connection → Type 0
IsOpen conn = (working : Database) × (conn.transaction ≡ some working)

-- BEGIN within a transaction
begin-IsOpen : (conn : Connection) → IsOpen conn → begin conn ≡ raised database_error
unfolding begin
begin-IsOpen conn (working, pending) = rw pending refl

abbrev pub is_reopen : Call → Bool
is_reopen Call.reopen = true
is_reopen _ = false

module _ (host : Host) where
  before-IsOpen :
      (conn : Connection) (f : Option Durable)
      → IsOpen conn
      → (failure : Failure) × (before host conn f ≡ raised failure)
  unfolding before
  before-IsOpen conn none pending = (database_error, begin-IsOpen conn pending)
  before-IsOpen conn (some Durable.before_begin) pending = (crash Durable.before_begin, refl)
  before-IsOpen conn (some b) pending = (database_error, begin-IsOpen conn pending)

  -- a command raises and leaves the connection as it is
  apply-IsOpen :
      (conn : Connection) (c : Command) (f : Option Durable) (m : Result String)
      → IsOpen conn
      → (failure : Failure) × (with_digest host conn c f m ≡ (conn, raised failure))
  unfolding with_digest with_begun
  apply-IsOpen conn c f (err e) pending = (protocol e, refl)
  apply-IsOpen conn c f (ok digest) pending =
      let (failure, begun) = before-IsOpen conn f pending in (failure, rw begun refl)

  -- the call raises, if it is one of the store
  abbrev pub Raises : Connection → Call → Type 0
  Raises conn (Call.apply_command c f) =
      (failure : Failure) × ((apply host conn c f).1 ≡ raised failure)
  Raises conn (Call.claim_for attempt_ref executor_ref) =
      (claim_attempt conn attempt_ref executor_ref).1 ≡ raised database_error
  Raises conn (Call.put_content content) = (put_blob host conn content).1 ≡ raised database_error
  Raises conn (Call.set_lock b) = Unit
  Raises conn Call.reopen = Unit

  -- each call of a sequence raises
  abbrev pub AllRaise : Connection → List Call → Type 0
  AllRaise conn [] = Unit
  AllRaise conn (call ∷ calls) = Raises conn call × AllRaise (step host conn call) calls

  -- until the database is opened again, every command, claim and blob raises and nothing is durable
  abbrev pub IsWedged : Connection → Type 0
  IsWedged conn =
      (calls : List Call)
      → any is_reopen calls ≡ false
      → AllRaise conn calls × ((run host conn calls).durable ≡ conn.durable)

  -- what one call leaves
  step-IsOpen :
      (conn : Connection) (call : Call)
      → IsOpen conn
      → is_reopen call ≡ false
      → Raises conn call
        × IsOpen (step host conn call)
        × ((step host conn call).durable ≡ conn.durable)
  unfolding step apply claim_attempt put_blob in_transaction
  step-IsOpen conn (Call.apply_command c f) pending stays =
      let (failure, e) = apply-IsOpen conn c f (command_digest host.runtime c) pending in
      subst
        (λ (x : Connection × Answer ApplyResult).
          ((w : Failure) × (x.1 ≡ raised w)) × IsOpen x.0 × (x.0.durable ≡ conn.durable))
        (sym e) ((failure, refl), pending, refl)
  step-IsOpen conn (Call.claim_for a x) pending stays =
      subst
        (λ (b : Answer Database).
          let y = in_transaction conn (claim a x) b in
          (y.1 ≡ raised database_error) × IsOpen y.0 × (y.0.durable ≡ conn.durable))
        (sym (begin-IsOpen conn pending)) (refl, pending, refl)
  step-IsOpen conn (Call.put_content content) pending stays =
      subst
        (λ (b : Answer Database).
          let y = in_transaction conn (put host content) b in
          (y.1 ≡ raised database_error) × IsOpen y.0 × (y.0.durable ≡ conn.durable))
        (sym (begin-IsOpen conn pending)) (refl, pending, refl)
  step-IsOpen conn (Call.set_lock b) pending stays = (tt, pending, refl)
  step-IsOpen conn Call.reopen pending stays = cc

  IsOpen-IsWedged : (conn : Connection) → IsOpen conn → IsWedged conn
  unfolding run
  IsOpen-IsWedged conn pending [] stays = (tt, refl)
  IsOpen-IsWedged conn pending (call ∷ calls) stays =
      let (first, others) = both_false (is_reopen call) (any is_reopen calls) stays in
      let (raises, still, same) = step-IsOpen conn call pending first in
      let (all_raise, kept) = IsOpen-IsWedged (step host conn call) still calls others in
      ((raises, all_raise), kept ∙ same)

  begin_idle :
      (conn : Connection)
      → conn.transaction ≡ none
      → conn.locked ≡ false
      → begin conn ≡ returned conn.durable
  unfolding begin
  begin_idle conn idle free = ground arith

  corruption_left_open :
      (conn : Connection) (c : Command) (digest : String) (working : Database)
      → conn.transaction ≡ none
      → conn.locked ≡ false
      → command_digest host.runtime c ≡ ok digest
      → find c.subject.loop_ref c.operation_id conn.durable.operations ≡ none
      → run_new host c digest none conn.durable ≡ (working, raised corruption)
      → apply host conn c none ≡ (left_open conn working, raised corruption)
  unfolding apply with_digest with_begun before attempt answer settle settle_raised
  corruption_left_open conn c digest working idle free own new broken =
      ap (with_digest host conn c none) own
      ∙ ap (with_begun host conn c digest none) (begin_idle conn idle free)
      ∙ ap (answer host conn c digest none conn.durable) new
      ∙ ap (settle host conn c digest none) broken

  -- Where a statement of a new command raises PersistenceCorruption, `apply` raises it, nothing of
  -- the command is durable, and the connection is useless until it is opened again: its transaction
  -- stays open, so in every sequence of later calls each command, claim and blob raises, and nothing
  -- that is durable changes.
  pub corruption-IsWedged :
      (conn : Connection) (c : Command) (digest : String) (working : Database)
      → conn.transaction ≡ none
      → conn.locked ≡ false
      → command_digest host.runtime c ≡ ok digest
      → find c.subject.loop_ref c.operation_id conn.durable.operations ≡ none
      → run_new host c digest none conn.durable ≡ (working, raised corruption)
      → ((apply host conn c none).1 ≡ raised corruption)
        × ((apply host conn c none).0.durable ≡ conn.durable)
        × IsWedged (apply host conn c none).0
  corruption-IsWedged conn c digest working idle free own new broken =
      subst
        (λ (x : Connection × Answer ApplyResult).
          (x.1 ≡ raised corruption) × (x.0.durable ≡ conn.durable) × IsWedged x.0)
        (sym (corruption_left_open conn c digest working idle free own new broken))
        (refl, refl, IsOpen-IsWedged (left_open conn working) (working, refl))
