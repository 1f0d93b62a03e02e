-- ===== src/Store/Blobs/Immutable.antt =====
-- A content that has been put is read back, and never changes.
use loop_skill.Store.Blobs.{collides, get_blob, put_blob, same_bytes}
use loop_skill.Store.{Store}
use loop_skill.Protocol.Outcome.{err, internal_invariant_violation, ok, rejection}
use loop_skill.Prelude.{
  ap, eq_iff, false, sym, ◌==◌, Bool-cases, List, String, [], arith, eq_refl, inl, inr, lookup,
  lookup-insert, refl, some, true, ℕ, ◌∷◌, ◌≡◌,
}

same_bytes→eq : (xs ys : List ℕ) → same_bytes xs ys ≡ true → xs ≡ ys
same_bytes→eq [] [] h = refl
same_bytes→eq [] (y ∷ ys) h = cc
same_bytes→eq (x ∷ xs) [] h = cc
same_bytes→eq (x ∷ xs) (y ∷ ys) h = ground (arith, same_bytes→eq xs ys)

not_collides :
    (kept content : List ℕ) → collides (some kept) content ≡ false → same_bytes kept content ≡ true
unfolding collides
not_collides kept content h = ground arith

module _ (raw_digest : List ℕ → String) where
  -- A content that `put_blob` accepts is read back under the digest that it returned.
  pub get_blob-put_blob :
      (st : Store) (content : List ℕ) (digest : String)
      → (put_blob raw_digest st content).1 ≡ ok digest
      → get_blob (put_blob raw_digest st content).0 digest ≡ some content
  unfolding put_blob get_blob
  get_blob-put_blob st content digest h =
      elim (Bool-cases (collides (lookup (raw_digest content) st.blobs) content)) [
        | inl clash ↦ absurd (
            let bad : err (rejection internal_invariant_violation) ≡ ok digest = (rw clash at h) in
            cc bad)
        | inr free ↦ rw free (
            let same : raw_digest content ≡ digest =
              (let k : ok (raw_digest content) ≡ ok digest = (rw free at h) in cc k) in
            rw same (simp (lookup-insert, eq_refl)))
      ]

  -- A digest under which a content is stored keeps that content, whatever is put.
  pub put_blob_keeps :
      (st : Store) (content kept : List ℕ) (digest : String)
      → get_blob st digest ≡ some kept
      → get_blob (put_blob raw_digest st content).0 digest ≡ some kept
  unfolding put_blob get_blob
  put_blob_keeps st content kept digest h =
      elim (Bool-cases (collides (lookup (raw_digest content) st.blobs) content)) [
        | inl clash ↦ rw clash h
        | inr free ↦ rw free elim (Bool-cases (raw_digest content == digest)) [
          | inl same ↦
              let at : raw_digest content ≡ digest = (eq_iff (raw_digest content) digest).0 same in
              let mine : collides (some kept) content ≡ false = (rw (at, h) at free) in
              let bytes : kept ≡ content =
                same_bytes→eq kept content (not_collides kept content mine) in
              simp (lookup-insert, same) (ap some (sym bytes))
          | inr other ↦ simp (lookup-insert, other) h
        ]
      ]
