-- ===== src/Sqlite/Returns.antt =====
-- What a chain of statements that returns has done: each statement returned, and the rest ran from
-- the database that it left.
use loop_skill.Sqlite.Database.{
  Answer, Database, Failure, Transaction, and_then, lift, query, raise_when, raised, returned,
  ◌>>=◌,
}
use loop_skill.Protocol.Outcome.{Result, err, ok}
use loop_skill.Prelude.{Bool, false, true, ap, sym, ◌≡◌, ◌∙◌, refl}

module _ {A B : Type 0} where
  and_then-returned :
      (r : Database × Answer A) (next : A → Transaction B) (b : B)
      → (and_then r next).1 ≡ returned b
      → (a : A) × (r.1 ≡ returned a) × (and_then r next ≡ next a r.0)
  and_then-returned (db, returned a) next b h = (a, refl, refl)
  and_then-returned (db, raised x) next b h = cc

  pub bind-returned :
      (m : Transaction A) (next : A → Transaction B) (db : Database) {b : B}
      → ((m >>= next) db).1 ≡ returned b
      → (a : A) × ((m db).1 ≡ returned a) × ((m >>= next) db ≡ next a (m db).0)
  unfolding ◌>>=◌
  bind-returned m next db {b} h = and_then-returned (m db) next b h

  pub lift-returned :
      (r : Result A) (next : A → Transaction B) (db : Database) {b : B}
      → ((lift r >>= next) db).1 ≡ returned b
      → (a : A) × (r ≡ ok a) × ((lift r >>= next) db ≡ next a db)
  unfolding ◌>>=◌
  lift-returned (ok a) next db h = (a, refl, refl)
  lift-returned (err e) next db h = cc

  query_answers :
      (answer : Answer A) (next : A → Transaction B) (db : Database) (b : B)
      → (and_then (db, answer) next).1 ≡ returned b
      → (a : A) × (answer ≡ returned a) × (and_then (db, answer) next ≡ next a db)
  query_answers (returned a) next db b h = (a, refl, refl)
  query_answers (raised x) next db b h = cc

  pub query-returned :
      (read : Database → Answer A) (next : A → Transaction B) (db : Database) {b : B}
      → ((query read >>= next) db).1 ≡ returned b
      → (a : A) × (read db ≡ returned a) × ((query read >>= next) db ≡ next a db)
  unfolding ◌>>=◌
  query-returned read next db {b} h = query_answers (read db) next db b h

module _ {B : Type 0} where
  pub raise_when-returned :
      (t : Bool) (failure : Failure) (next : Unit {0} → Transaction B) (db : Database) {b : B}
      → ((raise_when t failure >>= next) db).1 ≡ returned b
      → (t ≡ false) × ((raise_when t failure >>= next) db ≡ next tt db)
  unfolding ◌>>=◌
  raise_when-returned false failure next db h = (refl, refl)
  raise_when-returned true failure next db h = cc

-- the answer of the rest of a chain
pub rest_returned :
    {B : Type 0} {p q : Database × Answer B} {b : B} → p.1 ≡ returned b → p ≡ q → q.1 ≡ returned b
rest_returned {B} h e = sym (ap (λ (r : Database × Answer B). r.1) e) ∙ h

pub returned_injective : {A : Type 0} {a b : A} → returned a ≡ returned b → a ≡ b
returned_injective h = cc h
