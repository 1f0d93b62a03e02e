-- ===== src/Sqlite/Claims.antt =====
-- `claim_attempt` of v4_persistence/sqlite_store.py gives an attempt to one executor.
use loop_skill.Sqlite.Wire.{Host}
use loop_skill.Sqlite.Database.{raised, returned, Answer, Database, OutboxRow}
use loop_skill.Prelude.{
  subst, eq_iff, sym, ◌==◌, Bool, Bool-cases, List, Option, String, [], arith, eq_refl, false, inl,
  inr, lookup, lookup-insert, none, refl, some, true, ◌∙◌, ◌∷◌, ◌≡◌, ◌≤◌,
}
use loop_skill.Sqlite.Extends.{IsClaimed}
use loop_skill.Sqlite.Extends.Calls.{step-Extends, begin-durable}
use loop_skill.Sqlite.Apply.{Connection, begin}
use loop_skill.Sqlite.Calls.{
  Call, claim_attempt, count_grants, finish, grants, in_transaction, is_granted, step,
}
use loop_skill.Sqlite.Outbox.{is_ready, claim, claim_row, is_claimable, started_row}

-- A claim of what is not READY fails.
claim_row-past :
    (attempt_ref executor_ref : String) (row : OutboxRow) (db : Database)
    → is_ready row.invocation_state ≡ false
    → claim_row attempt_ref executor_ref (some row) db ≡ (db, returned false)
unfolding claim_row
claim_row-past attempt_ref executor_ref row db past = ground arith

-- A claim that is granted leaves the attempt started.
claim_row-IsClaimed :
    (attempt_ref executor_ref : String) (o : Option OutboxRow) (db : Database)
    → (claim_row attempt_ref executor_ref o db).1 ≡ returned true
    → IsClaimed attempt_ref (claim_row attempt_ref executor_ref o db).0
unfolding claim_row
claim_row-IsClaimed attempt_ref executor_ref none db h = cc
claim_row-IsClaimed attempt_ref executor_ref (some row) db h =
    elim (Bool-cases (is_claimable row)) [
      | inl free ↦ rw free (
        started_row row executor_ref,
        lookup-insert attempt_ref attempt_ref _ db.outbox ∙ simp eq_refl,
        refl,
      )
      | inr held ↦ absurd (let clash : returned false ≡ returned true = rw held at h in cc clash)
    ]

finish-granted :
    (conn : Connection) (r : Database × Answer Bool)
    → is_granted (finish conn r).1 ≡ true
    → ((finish conn r).0.durable ≡ r.0) × (r.1 ≡ returned true)
unfolding finish
finish-granted conn (working, returned b) h = ground arith
finish-granted conn (working, raised failure) h = cc

in_transaction-granted :
    (conn : Connection) (attempt_ref executor_ref : String) (a : Answer Database)
    → is_granted (in_transaction conn (claim attempt_ref executor_ref) a).1 ≡ true
    → IsClaimed attempt_ref (in_transaction conn (claim attempt_ref executor_ref) a).0.durable
unfolding in_transaction claim
in_transaction-granted conn attempt_ref executor_ref (raised failure) h = cc
in_transaction-granted conn attempt_ref executor_ref (returned working) h =
    let (durable, granted) = finish-granted conn _ h in
    rw durable (
      claim_row-IsClaimed attempt_ref executor_ref (lookup attempt_ref working.outbox) working
        granted)

in_transaction-refused :
    (conn : Connection) (attempt_ref executor_ref : String) (a : Answer Database)
    → ((working : Database) → a ≡ returned working → conn.durable ≡ working)
    → IsClaimed attempt_ref conn.durable
    → is_granted (in_transaction conn (claim attempt_ref executor_ref) a).1 ≡ false
unfolding in_transaction claim finish
in_transaction-refused conn attempt_ref executor_ref (raised failure) start claimed = refl
in_transaction-refused conn attempt_ref executor_ref (returned working) start (row, found, past) =
    let moved : lookup attempt_ref working.outbox ≡ some row =
      subst (λ db. lookup attempt_ref db.outbox ≡ some row) (start working refl) found in
    rw (moved, claim_row-past attempt_ref executor_ref row working past) refl

-- a call that grants an attempt leaves it claimed
grants-IsClaimed :
    (host : Host) (attempt_ref : String) (conn : Connection) (call : Call)
    → grants attempt_ref conn call ≡ true
    → IsClaimed attempt_ref (step host conn call).durable
unfolding grants step claim_attempt
grants-IsClaimed host attempt_ref conn (Call.apply_command c f) h = cc
grants-IsClaimed host attempt_ref conn (Call.claim_for other executor_ref) h =
    elim (Bool-cases (other == attempt_ref)) [
      | inl same ↦
          subst
            (λ k.
              IsClaimed k (in_transaction conn (claim other executor_ref) (begin conn)).0.durable)
            ((eq_iff other attempt_ref).0 same)
            (in_transaction-granted conn other executor_ref (begin conn) (rw same at h))
      | inr ne ↦ absurd (let clash : false ≡ true = rw ne at h in cc clash)
    ]
grants-IsClaimed host attempt_ref conn (Call.put_content content) h = cc
grants-IsClaimed host attempt_ref conn (Call.set_lock b) h = cc
grants-IsClaimed host attempt_ref conn Call.reopen h = cc

-- no call grants a claimed attempt
grants-refused :
    (attempt_ref : String) (conn : Connection) (call : Call)
    → IsClaimed attempt_ref conn.durable
    → grants attempt_ref conn call ≡ false
unfolding grants claim_attempt
grants-refused attempt_ref conn (Call.apply_command c f) h = refl
grants-refused attempt_ref conn (Call.claim_for other executor_ref) h =
    elim (Bool-cases (other == attempt_ref)) [
      | inl same ↦ rw same (
          in_transaction-refused conn other executor_ref (begin conn) (begin-durable conn)
            (subst (λ k. IsClaimed k conn.durable) (sym ((eq_iff other attempt_ref).0 same)) h))
      | inr ne ↦ rw ne
    ]
grants-refused attempt_ref conn (Call.put_content content) h = refl
grants-refused attempt_ref conn (Call.set_lock b) h = refl
grants-refused attempt_ref conn Call.reopen h = refl

count_grants-of_claimed :
    (host : Host) (attempt_ref : String) (conn : Connection) (calls : List Call)
    → IsClaimed attempt_ref conn.durable
    → count_grants host attempt_ref conn calls ≡ 0
unfolding count_grants
count_grants-of_claimed host attempt_ref conn [] h = refl
count_grants-of_claimed host attempt_ref conn (call ∷ calls) h =
    rw (grants-refused attempt_ref conn call h) (
      omega (
        arith,
        count_grants-of_claimed host attempt_ref (step host conn call) calls
            ((step-Extends host conn call).claims attempt_ref h),
      ))

-- Over any sequence of commands, claims, crashes, restarts and blobs, an attempt is handed to at
-- most one executor.
pub count_grants-le-one :
    (host : Host) (attempt_ref : String) (conn : Connection) (calls : List Call)
    → count_grants host attempt_ref conn calls ≤ 1
unfolding count_grants
count_grants-le-one host attempt_ref conn [] = omega arith
count_grants-le-one host attempt_ref conn (call ∷ calls) =
    elim (Bool-cases (grants attempt_ref conn call)) [
      | inl granted ↦ rw granted (
          omega (
            arith,
            count_grants-of_claimed host attempt_ref (step host conn call) calls
                (grants-IsClaimed host attempt_ref conn call granted),
          ))
      | inr refused ↦
          rw refused
            (omega (arith, count_grants-le-one host attempt_ref (step host conn call) calls))
    ]
