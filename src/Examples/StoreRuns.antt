-- ===== src/Examples/StoreRuns.antt =====
-- The store's theorems at the PauseLoop of Examples/Pause and at small blobs.
use loop_skill.Protocol.Outcome.{
  err, after_commit_before_response, ok, rejection, stale_loop_revision,
}
use loop_skill.Prelude.{
  Bool-cases, inl, inr, subst, ◌==◌, List, String, [], lookup, none, refl, some, true, ℕ, ◌∷◌, ◌≡◌,
}
use loop_skill.Protocol.Envelope.{domain_digest}
use loop_skill.Protocol.Value.{size_members, Value, num, object_of, str, validate_value}
use loop_skill.Kernel.State.{Snapshot}
use loop_skill.Examples.Data.{loop, context, encode, pause, paused_result, runtime, store, hash}
use loop_skill.Examples.Pause.{
  stale_digest, apply_result, stale, stale_rejected, store-IsConsistent, store_honest,
  rejection_no_crash,
}
use loop_skill.Store.{empty_store, Store, apply}
use loop_skill.Store.Replay.{apply-apply}
use loop_skill.Store.Refusal.{apply_rejected_again}
use loop_skill.Store.Atomic.{apply_error_unchanged, SameCommits}
use loop_skill.Store.Cas.{apply-Advances, retry_after_crash, Advances}
use loop_skill.Store.Integrity.{digest_of, check_blobs, IsConsistent, verify_integrity}
use loop_skill.Store.Integrity.Kept.{apply-IsConsistent}
use loop_skill.Protocol.Partial.{some_injective}
use loop_skill.Store.Integrity.Verify.{verify_integrity-Reaches, IsIntact, Reaches}
use loop_skill.Store.Honest.{LoopsHonest, apply-LoopsHonest}
use loop_skill.Store.Blobs.{put_blob, get_blob}
use loop_skill.Store.Blobs.Immutable.{get_blob-put_blob, put_blob_keeps}

apply-apply_example :
    apply runtime context encode (apply runtime context encode store pause none).0 pause none ≡ (
      (apply runtime context encode store pause none).0,
      ok (record paused_result { replayed = true }),
    )
apply-apply_example =
    apply-apply runtime context encode store pause none none paused_result apply_result

apply_error_unchanged_example :
    SameCommits runtime context encode store (apply runtime context encode store stale none).0
apply_error_unchanged_example =
    apply_error_unchanged runtime context encode store stale none (rejection stale_loop_revision)
      stale_rejected rejection_no_crash

apply-Advances_example :
    Advances runtime context encode store pause paused_result
      (apply runtime context encode store pause none).0
apply-Advances_example =
    apply-Advances runtime context encode store pause none paused_result apply_result refl

abbrev crashed : Store
crashed = (apply runtime context encode store pause (some after_commit_before_response)).0

retry_after_crash_example :
    (crashed ≡ (apply runtime context encode store pause none).0)
    × (apply runtime context encode crashed pause none
        ≡ (crashed, ok (record paused_result { replayed = true })))
retry_after_crash_example =
    retry_after_crash runtime context encode store pause none paused_result apply_result

apply-IsConsistent_example : IsConsistent (apply runtime context encode store pause none).0
apply-IsConsistent_example =
    apply-IsConsistent runtime context encode store pause none store-IsConsistent

-- a part of the dictionary of a snapshot
abbrev snapshot_value : Snapshot → Value
snapshot_value s =
    object_of (("loop_ref", str s.loop_ref) ∷ ("loop_revision", num s.loop_revision) ∷ [])

loop_encodes : digest_of runtime snapshot_value loop ≡ ok hash
unfolding digest_of domain_digest validate_value size_members
loop_encodes = refl

store-IsIntact : IsIntact runtime context snapshot_value (λ content. hash) store
unfolding lookup check_blobs empty_store
store-IsIntact = record {
  consistent = store-IsConsistent;
  encoded = λ k s found. elim (Bool-cases ("loop-1" == k)) [
    | inl same ↦
        let mine : loop ≡ s = some_injective (rw same at found) in
        (hash, subst (λ t. digest_of runtime snapshot_value t ≡ ok hash) mine loop_encodes)
    | inr other ↦ absurd (let clash : none ≡ some s = rw other at found in cc clash)
  ];
  blobs = refl;
}

verify_integrity-Reaches_example :
    verify_integrity runtime snapshot_value
      (λ content. hash)
      (apply runtime context
        (digest_of runtime snapshot_value)
        (put_blob (λ content. hash) store (1 ∷ [])).0
        pause
        none).0
    ≡ ok tt
verify_integrity-Reaches_example =
    verify_integrity-Reaches runtime context snapshot_value (λ content. hash) store _
      (inr store-IsIntact) (Reaches.applied pause none (Reaches.stored (1 ∷ []) Reaches.here))

apply-LoopsHonest_example : LoopsHonest (apply runtime context encode store pause none).0
apply-LoopsHonest_example = apply-LoopsHonest runtime context encode store pause none store_honest

abbrev blob_digest : List ℕ → String
blob_digest content = hash

put_ok : (put_blob blob_digest empty_store (1 ∷ 2 ∷ [])).1 ≡ ok hash
unfolding put_blob lookup empty_store
put_ok = refl

get_blob-put_blob_example :
    get_blob (put_blob blob_digest empty_store (1 ∷ 2 ∷ [])).0 hash ≡ some (1 ∷ 2 ∷ [])
get_blob-put_blob_example = get_blob-put_blob blob_digest empty_store (1 ∷ 2 ∷ []) hash put_ok

abbrev with_blob : Store
with_blob = record empty_store { blobs = ("kept", 3 ∷ []) ∷ [] }

kept_ok : get_blob with_blob "kept" ≡ some (3 ∷ [])
unfolding get_blob lookup
kept_ok = refl

put_blob_keeps_example :
    get_blob (put_blob blob_digest with_blob (1 ∷ 2 ∷ [])).0 "kept" ≡ some (3 ∷ [])
put_blob_keeps_example = put_blob_keeps blob_digest with_blob (1 ∷ 2 ∷ []) (3 ∷ []) "kept" kept_ok

apply_rejected_again_example :
    apply runtime context encode (apply runtime context encode store stale none).0 stale none
    ≡ ((apply runtime context encode store stale none).0, err (rejection stale_loop_revision))
apply_rejected_again_example =
    apply_rejected_again runtime context encode store stale none none stale_loop_revision
      stale_digest stale_rejected
