-- ===== src/Store/Ledger.antt =====
-- The two dictionaries keyed by a loop and an operation, `_accepted` and `_rejected`.
use loop_skill.Prelude.{
  Bool, Bool-cases, List, Option, String, [], arith, eq_refl, if◌then◌else◌, inl, inr, none, some,
  ℕ, ◌&&◌, ◌+◌, ◌==◌, ◌∷◌, ◌≡◌,
}

pub record Entry {ℓ} (V : Type ℓ) : Type ℓ where
  pub loop_ref : String
  pub operation_id : String
  pub request_digest : String
  pub value : V

module _ {ℓ} {V : Type ℓ} where
  abbrev pub has_key : String → String → Entry V → Bool
  has_key loop_ref operation_id e = (e.loop_ref == loop_ref) && (e.operation_id == operation_id)

  -- `ledger.get((loop_ref, operation_id))`
  unfoldable pub find : String → String → List (Entry V) → Option (Entry V)
  find loop_ref operation_id [] = none
  find loop_ref operation_id (e ∷ es) =
      if has_key loop_ref operation_id e then some e else find loop_ref operation_id es

  -- `ledger[(loop_ref, operation_id)] = (request_digest, value)`
  unfoldable pub record_entry : Entry V → List (Entry V) → List (Entry V)
  record_entry new [] = new ∷ []
  record_entry new (e ∷ es) =
      if has_key new.loop_ref new.operation_id e then new ∷ es else e ∷ record_entry new es

  -- `sum(1 for accepted_loop, _ in ledger if accepted_loop == loop_ref)`
  unfoldable pub count_loop : String → List (Entry V) → ℕ
  count_loop loop_ref [] = 0
  count_loop loop_ref (e ∷ es) = (if e.loop_ref == loop_ref then 1 else 0) + count_loop loop_ref es

  -- What was recorded is found, and nothing else has changed.
  pub find-record_entry_self :
      (new : Entry V) (es : List (Entry V))
      → find new.loop_ref new.operation_id (record_entry new es) ≡ some new
  unfolding find record_entry
  find-record_entry_self new [] = simp eq_refl
  find-record_entry_self new (e ∷ es) =
      elim (Bool-cases (has_key new.loop_ref new.operation_id e)) [
        | inl same ↦ rw same (simp eq_refl)
        | inr other ↦ rw (other, other) (find-record_entry_self new es)
      ]

  -- A record under a new key counts once for its loop.
  pub count_loop-record_entry :
      (loop_ref : String) (new : Entry V) (es : List (Entry V))
      → find new.loop_ref new.operation_id es ≡ none
      → count_loop loop_ref (record_entry new es)
        ≡ count_loop loop_ref es + (if new.loop_ref == loop_ref then 1 else 0)
  unfolding find record_entry count_loop
  count_loop-record_entry loop_ref new [] h = omega arith
  count_loop-record_entry loop_ref new (e ∷ es) h =
      elim (Bool-cases (has_key new.loop_ref new.operation_id e)) [
        | inl same ↦ absurd (let clash : some e ≡ none = rw same at h in cc clash)
        | inr other ↦
            rw other (omega (arith, count_loop-record_entry loop_ref new es (rw other at h)))
      ]
