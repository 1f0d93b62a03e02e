-- ===== src/Sqlite/Keeps.antt =====
-- Statements that move the database along a preorder, one rule for each way to build a statement.
use loop_skill.Sqlite.Database.{
  Answer, Database, Failure, Transaction, and_then, give, lift, query, raise_when, raised, returned,
  ◌>>=◌,
}
use loop_skill.Protocol.Outcome.{Result, err, ok}
use loop_skill.Prelude.{Bool, false, true}

pub record Preorder (R : Database → Database → Type 0) : Type 0 where
  pub stays : (db : Database) → R db db
  pub goes_on : (a b c : Database) → R a b → R b c → R a c

-- the statement moves along `R`, whether it returns or raises
pub record Keeps {A : Type 0} (R : Database → Database → Type 0) (m : Transaction A) : Type 0 where
  pub at : (db : Database) → R db (m db).0

module _ {R : Database → Database → Type 0} {A : Type 0} where
  pub Keeps-give : (p : Preorder R) (a : A) → Keeps R (give a)
  unfolding give
  Keeps-give p a = record { at = p.stays }

  pub Keeps-query : (p : Preorder R) (read : Database → Answer A) → Keeps R (query read)
  unfolding query
  Keeps-query p read = record { at = p.stays }

  pub Keeps-lift : (p : Preorder R) (r : Result A) → Keeps R (lift r)
  unfolding lift
  Keeps-lift p (ok a) = record { at = p.stays }
  Keeps-lift p (err e) = record { at = p.stays }

module _ {R : Database → Database → Type 0} where
  pub Keeps-raise_when :
      (p : Preorder R) (b : Bool) (failure : Failure) → Keeps R (raise_when b failure)
  unfolding raise_when
  Keeps-raise_when p true failure = record { at = p.stays }
  Keeps-raise_when p false failure = record { at = p.stays }

module _ {R : Database → Database → Type 0} {A B : Type 0} where
  and_then-goes_on :
      (p : Preorder R) (old : Database) (r : Database × Answer A) (next : A → Transaction B)
      → R old r.0
      → ((a : A) → Keeps R (next a))
      → R old (and_then r next).0
  and_then-goes_on p old (working, returned a) next h rest =
      p.goes_on old working (next a working).0 h ((rest a).at working)
  and_then-goes_on p old (working, raised failure) next h rest = h

  pub Keeps-bind :
      (p : Preorder R) (m : Transaction A) (next : A → Transaction B)
      → Keeps R m
      → ((a : A) → Keeps R (next a))
      → Keeps R (m >>= next)
  unfolding ◌>>=◌
  Keeps-bind p m next first rest = record {
    at = λ db. and_then-goes_on p db (m db) next (first.at db) rest;
  }

-- a weaker order
pub Keeps-weaken :
    {R S : Database → Database → Type 0} {A : Type 0} (m : Transaction A)
    → ((a b : Database) → R a b → S a b)
    → Keeps R m
    → Keeps S m
Keeps-weaken m weaker k = record { at = λ db. weaker db (m db).0 (k.at db) }

pub ruleset keeps = (Keeps-give, Keeps-query, Keeps-lift, Keeps-raise_when, Keeps-bind)
