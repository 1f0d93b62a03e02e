-- ===== src/Store/Blobs.antt =====
-- `put_blob` and `get_blob` of v4_alpha/store.py: immutable contents by their digest. The digest,
-- `raw_domain_digest` of a content, is an argument.
pub mod Immutable
use loop_skill.Store.{Store}
use loop_skill.Protocol.Outcome.{Result, err, internal_invariant_violation, ok, rejection}
use loop_skill.Prelude.{
  Bool, List, Option, String, [], eqb, false, if◌then◌else◌, insert, lookup, none, not, some, true,
  ℕ, ◌&&◌, ◌∷◌,
}

-- two contents are the same bytes
abbrev pub same_bytes : List ℕ → List ℕ → Bool
same_bytes [] [] = true
same_bytes [] (b ∷ bs) = false
same_bytes (a ∷ as') [] = false
same_bytes (a ∷ as') (b ∷ bs) = eqb a b && same_bytes as' bs

-- `existing is not None and existing != content`
unfoldable pub collides : Option (List ℕ) → List ℕ → Bool
collides none content = false
collides (some existing) content = not (same_bytes existing content)

unfoldable pub put_blob : (List ℕ → String) → Store → List ℕ → Store × Result String
unfolding collides
put_blob raw_digest st content =
    let digest = raw_digest content in
    if collides (lookup digest st.blobs) content
    then (st, err (rejection internal_invariant_violation))
    else (record st { blobs = insert digest content st.blobs }, ok digest)

unfoldable pub get_blob : Store → String → Option (List ℕ)
get_blob st digest = lookup digest st.blobs
