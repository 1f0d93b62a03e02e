-- ===== src/Protocol/Outcome.antt =====
-- Fallible code. `ProtocolRejection` of v4_alpha/protocol.py carries a code; its free text detail
-- is not modelled. A missing dictionary key (`KeyError`), a value that Python refuses (`ValueError`,
-- `TypeError`) and the synthetic crash of the store are errors of their own.
use loop_skill.Prelude.{
  inl, inr, ◌⊎◌, arith, Bool, true, false, Option, none, some, ◌≡◌, refl, String, Dict, lookup,
}

-- ERROR_CODES
pub data Code : Type 0 where
  invalid_command unsupported_protocol_version resource_limit_exceeded invalid_utf8 : Code
  control_field_injection invalid_authority authority_expired authority_scope_mismatch : Code
  stale_loop_revision stale_subject_revision idempotency_conflict foreign_reference : Code
  wrong_reference_kind invalid_transition capability_unavailable capability_unverifiable : Code
  receipt_required receipt_issuer_untrusted receipt_expired receipt_identity_mismatch : Code
  attempt_already_consumed finalization_precondition_failed internal_invariant_violation : Code
  user_confirmation_required user_confirmation_stale : Code

-- FAULT_BOUNDARIES of v4_alpha/store.py
pub data Boundary : Type 0 where
  before_reduce after_reduce_before_commit after_commit_before_response : Boundary

pub data Error : Type 0 where
  rejection : Code → Error
  key_error value_error : Error
  injected_crash : Boundary → Error

pub data Result {κ} (V : Type κ) : Type κ where
  ok : V → Result V
  err : Error → Result V

infixl 5 ◌>>=◌
infixl 5 ◌>>◌
-- the next statement, which an exception skips
abbrev pub ◌>>=◌ {κ μ} : {V : Type κ} {W : Type μ} → Result V → (V → Result W) → Result W
ok v >>= next = next v
err error >>= next = err error

abbrev pub ◌>>◌ {μ} : {W : Type μ} → Result (Unit {0}) → Result W → Result W
before >> next = before >>= λ _. next

-- `if b: raise ProtocolRejection(c)`
abbrev pub raise_if : Bool → Code → Result (Unit {0})
raise_if true c = err (rejection c)
raise_if false c = ok tt

abbrev pub reject {ℓ} : {A : Type ℓ} → Code → Result A
reject c = err (rejection c)

-- `x` or a rejection where it is None
abbrev pub require {ℓ} : {A : Type ℓ} → Option A → Code → Result A
require none c = err (rejection c)
require (some a) c = ok a

-- `d[k]`, which raises KeyError
abbrev pub at_key {ℓ} : {A : Type ℓ} → Option A → Result A
at_key none = err key_error
at_key (some a) = ok a

abbrev pub fetch {ℓ} : {V : Type ℓ} → String → Dict V → Result V
fetch k d = at_key (lookup k d)

-- What a call that returns has: the part of a do block before it returned, too.
pub >>=-eq-ok {κ μ} :
    {V : Type κ} {W : Type μ} (before : Result V) (next : V → Result W) {w : W}
    → (before >>= next) ≡ ok w
    → (v : V) × (before ≡ ok v) × (next v ≡ ok w)
>>=-eq-ok (err error) next returns = cc
>>=-eq-ok (ok v) next returns = (v, refl, returns)

pub raise_if-eq-ok : (b : Bool) (c : Code) {u : Unit {0}} → raise_if b c ≡ ok u → b ≡ false
raise_if-eq-ok false c h = refl
raise_if-eq-ok true c h = cc

-- a property of what a chain returns, from the rest of the chain
pub >>=-returns {ℓ κ μ} :
    {A : Type ℓ} {B : Type κ} (P : B → Type μ) (m : Result A) (f : A → Result B)
    → ((a : A) (b : B) → f a ≡ ok b → P b)
    → (b : B) → (m >>= f) ≡ ok b
    → P b
>>=-returns P (ok a) f rest b h = rest a b h
>>=-returns P (err e) f rest b h = cc

pub require-eq-ok {ℓ} :
    {A : Type ℓ} (o : Option A) (c : Code) {a : A} → require o c ≡ ok a → o ≡ some a
require-eq-ok (some x) c h = ground arith
require-eq-ok none c h = cc

pub at_key-eq-ok {ℓ} : {A : Type ℓ} (o : Option A) {a : A} → at_key o ≡ ok a → o ≡ some a
at_key-eq-ok (some x) h = ground arith
at_key-eq-ok none h = cc

pub Result-cases {κ} :
    {V : Type κ} (r : Result V) → ((v : V) × (r ≡ ok v)) ⊎ ((e : Error) × (r ≡ err e))
Result-cases (ok v) = inl (v, refl)
Result-cases (err e) = inr (e, refl)
