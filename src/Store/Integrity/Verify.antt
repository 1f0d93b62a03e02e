-- ===== src/Store/Integrity/Verify.antt =====
-- `verify_integrity` of v4_alpha/store.py on the stores that calls of `apply` and `put_blob` make.
use loop_skill.Store.Integrity.{
  digest_of, check_blobs, check_loops, is_sequenced, verify_integrity, IsConsistent, IsSequenced,
}
use loop_skill.Store.Integrity.Kept.{apply-IsConsistent}
use loop_skill.Store.Blobs.{collides, put_blob}
use loop_skill.Protocol.Value.{Value}
use loop_skill.Protocol.Partial.{some_injective}
use loop_skill.Protocol.Validate.{command_digest}
use loop_skill.Protocol.Envelope.{AuthorityContext, Command, Runtime}
use loop_skill.Store.{
  answer_accepted, answer_rejected, apply, commit, empty_store, finish, fresh, known, prepare,
  record_rejection, with_digest, ApplyResult, Commit, Entry, events_of, count_loop, SequencedEvent,
  Store,
}
use loop_skill.Protocol.Outcome.{
  >>=-eq-ok, raise_if, internal_invariant_violation, Boundary, Code, err, injected_crash, key_error,
  rejection, value_error, Result, ok,
}
use loop_skill.Prelude.{
  arith, ◌⊎◌, ap, not, insert, lookup-insert, subst, sym, ◌∙◌, Option, eq_refl, Bool-cases, Dict,
  Keyed, List, String, [], eq_iff, eqb_refl, inl, inr, lookup, none, refl, some, true, ℕ, ◌+◌, ◌==◌,
  ◌∷◌, ◌≡◌,
}
use loop_skill.Kernel.State.{Snapshot}

-- an entry of a dictionary with distinct keys is the one that a lookup finds
abbrev FoundIn : Dict Snapshot → Dict Snapshot → Type 0
FoundIn d full = (k : String) (s : Snapshot) → lookup k d ≡ some s → lookup k full ≡ some s

FoundIn-tail :
    (j : String) (s : Snapshot) (d full : Dict Snapshot)
    → lookup j d ≡ none
    → FoundIn ((j, s) ∷ d) full
    → FoundIn d full
unfolding lookup
FoundIn-tail j s d full absent h k t found = elim (Bool-cases (j == k)) [
  | inl same ↦ absurd (
      let e : j ≡ k = (eq_iff j k).0 same in
      let clash : lookup j d ≡ some t = rw e found in cc (clash, absent))
  | inr other ↦ h k t (rw other found)
]

is_sequenced-true : (n : ℕ) (es : List SequencedEvent) → IsSequenced n es → is_sequenced n es ≡ true
unfolding is_sequenced
is_sequenced-true n [] h = refl
is_sequenced-true n (e ∷ es) h = rw (h.0, eqb_refl) (is_sequenced-true (n + 1) es h.1)

module _ (rt : Runtime) (ctx : AuthorityContext) (snapshot_value : Snapshot → Value)
    (raw_digest : List ℕ → String) where
  -- the digest of every snapshot of the store exists
  abbrev pub IsEncoded : Store → Type 0
  IsEncoded st =
      (k : String) (s : Snapshot)
      → lookup k st.snapshots ≡ some s
      → (d : String) × (digest_of rt snapshot_value s ≡ ok d)

  -- what `verify_integrity` tests
  pub record IsIntact (st : Store) : Type 0 where
    pub consistent : IsConsistent st
    pub encoded : IsEncoded st
    pub blobs : check_blobs raw_digest st.blobs ≡ ok tt

  -- the stores that calls of `apply` and `put_blob` make of a store, at any fault
  pub data Reaches (start : Store) : Store → Type 0 where
    here : Reaches start start
    applied :
        {st : Store} (c : Command) (f : Option Boundary)
        → Reaches start st
        → Reaches start (apply rt ctx (digest_of rt snapshot_value) st c f).0
    stored :
        {st : Store} (content : List ℕ)
        → Reaches start st
        → Reaches start (put_blob raw_digest st content).0

  check_loops_passes :
      (st : Store) (d : Dict Snapshot)
      → IsConsistent st
      → IsEncoded st
      → Keyed d
      → FoundIn d st.snapshots
      → check_loops rt snapshot_value st d ≡ ok tt
  unfolding check_loops lookup
  check_loops_passes st [] h encodes keyed found = refl
  check_loops_passes st ((j, s) ∷ d) h encodes keyed found =
      let here : lookup j st.snapshots ≡ some s = found j s (rw eq_refl) in
      let counts : s.loop_revision ≡ count_loop j st.accepted = rw here at (h.counted j) in
      let rest =
        check_loops_passes st d h encodes keyed.1 (FoundIn-tail j s d st.snapshots keyed.0 found) in
      let (_, encoded) = encodes j s here in
      rw (encoded, is_sequenced-true 0 (events_of st j) (h.sequenced j), counts, eqb_refl) rest

  prepare_encodes :
      (st : Store) (c : Command) (f : Option Boundary) (new : Commit)
      → prepare rt ctx (digest_of rt snapshot_value) st c f ≡ ok new
      → digest_of rt snapshot_value new.candidate ≡ ok new.result.snapshot_digest
  unfolding prepare
  prepare_encodes st c f new h = ground arith

  finish-IsEncoded :
      (st : Store) (c : Command) (digest : String) (f : Option Boundary) (p : Result Commit)
      → prepare rt ctx (digest_of rt snapshot_value) st c f ≡ p
      → IsEncoded st
      → IsEncoded (finish rt ctx (digest_of rt snapshot_value) st c digest f p).0
  unfolding finish record_rejection commit
  finish-IsEncoded st c digest f (ok new) e h = λ k s found.
      elim (Bool-cases (c.subject.loop_ref == k)) [
        | inl same ↦
            let mine : new.candidate ≡ s = some_injective (
              sym (lookup-insert c.subject.loop_ref k new.candidate st.snapshots ∙ rw same refl)
              ∙ found) in
            (
              new.result.snapshot_digest,
              subst (λ t. digest_of rt snapshot_value t ≡ ok new.result.snapshot_digest) mine
                  (prepare_encodes st c f new e),
            )
        | inr other ↦ h k s (
            sym (lookup-insert c.subject.loop_ref k new.candidate st.snapshots ∙ rw other refl)
            ∙ found)
      ]
  finish-IsEncoded st c digest f (err (rejection code)) e h = h
  finish-IsEncoded st c digest f (err key_error) e h = h
  finish-IsEncoded st c digest f (err value_error) e h = h
  finish-IsEncoded st c digest f (err (injected_crash b)) e h = h

  finish_blobs :
      (st : Store) (c : Command) (digest : String) (f : Option Boundary) (p : Result Commit)
      → (finish rt ctx (digest_of rt snapshot_value) st c digest f p).0.blobs ≡ st.blobs
  unfolding finish record_rejection commit
  finish_blobs st c digest f (ok new) = refl
  finish_blobs st c digest f (err (rejection code)) = refl
  finish_blobs st c digest f (err key_error) = refl
  finish_blobs st c digest f (err value_error) = refl
  finish_blobs st c digest f (err (injected_crash b)) = refl

  -- the rest of `IsIntact`, over a call of `apply`
  abbrev Rest : Store → Type 0
  Rest st = IsEncoded st × (check_blobs raw_digest st.blobs ≡ ok tt)

  fresh-Rest :
      (st : Store) (c : Command) (digest : String) (f : Option Boundary) (o : Option (Entry Code))
      → Rest st
      → Rest (fresh rt ctx (digest_of rt snapshot_value) st c digest f o).0
  unfolding fresh answer_rejected
  fresh-Rest st c digest f (some e) h = h
  fresh-Rest st c digest f none h = (
    finish-IsEncoded st c digest f _ refl h.0,
    ap (check_blobs raw_digest) (finish_blobs st c digest f _) ∙ h.1,
  )

  known-Rest :
      (st : Store) (c : Command) (digest : String) (f : Option Boundary)
      (o : Option (Entry ApplyResult))
      → Rest st
      → Rest (known rt ctx (digest_of rt snapshot_value) st c digest f o).0
  unfolding known answer_accepted
  known-Rest st c digest f (some e) h = h
  known-Rest st c digest f none h = fresh-Rest st c digest f _ h

  with_digest-Rest :
      (st : Store) (c : Command) (f : Option Boundary) (m : Result String)
      → Rest st
      → Rest (with_digest rt ctx (digest_of rt snapshot_value) st c f m).0
  unfolding with_digest
  with_digest-Rest st c f (err e) h = h
  with_digest-Rest st c f (ok digest) h = known-Rest st c digest f _ h

  apply-IsIntact :
      (st : Store) (c : Command) (f : Option Boundary)
      → IsIntact st
      → IsIntact (apply rt ctx (digest_of rt snapshot_value) st c f).0
  unfolding apply
  apply-IsIntact st c f h =
      let (encoded, blobs) = with_digest-Rest st c f (command_digest rt c) (h.encoded, h.blobs) in
      record {
        consistent = apply-IsConsistent rt ctx (digest_of rt snapshot_value) st c f h.consistent;
        encoded = encoded;
        blobs = blobs;
      }

  check_blobs-insert :
      (content : List ℕ) (d : Dict (List ℕ))
      → check_blobs raw_digest d ≡ ok tt
      → check_blobs raw_digest (insert (raw_digest content) content d) ≡ ok tt
  unfolding check_blobs insert
  check_blobs-insert content [] h = rw (eq_refl (raw_digest content)) refl
  check_blobs-insert content ((j, kept) ∷ d) h =
      let (_, own, rest) =
        >>=-eq-ok (raise_if (not (raw_digest kept == j)) internal_invariant_violation) _ h in
      elim (Bool-cases (j == raw_digest content)) [
        | inl same ↦
            let back : (raw_digest content == j) ≡ true =
              (eq_iff (raw_digest content) j).1 (sym ((eq_iff j (raw_digest content)).0 same)) in
            rw (same, back) rest
        | inr other ↦
            let kept_own : (raw_digest kept == j) ≡ true = ground (arith, own) in
            rw (other, kept_own) (check_blobs-insert content d rest)
      ]

  put_blob-IsIntact :
      (st : Store) (content : List ℕ) → IsIntact st → IsIntact (put_blob raw_digest st content).0
  unfolding put_blob
  put_blob-IsIntact st content h =
      elim (Bool-cases (collides (lookup (raw_digest content) st.blobs) content)) [
        | inl clash ↦ rw clash h
        | inr free ↦ rw free (record {
          consistent = record {
            sequenced = h.consistent.sequenced;
            counted = h.consistent.counted;
            keyed = h.consistent.keyed;
          };
          encoded = h.encoded;
          blobs = check_blobs-insert content st.blobs h.blobs;
        })
      ]

  Reaches-IsIntact : {start st : Store} → IsIntact start → Reaches start st → IsIntact st
  Reaches-IsIntact h here = h
  Reaches-IsIntact h (applied c f r) = apply-IsIntact _ c f (Reaches-IsIntact h r)
  Reaches-IsIntact h (stored content r) = put_blob-IsIntact _ content (Reaches-IsIntact h r)

  -- nothing has been stored yet
  pub empty_store-IsIntact : IsIntact empty_store
  unfolding empty_store check_blobs lookup count_loop
  empty_store-IsIntact = record {
    consistent = record { sequenced = λ j. tt; counted = λ j. refl; keyed = tt };
    encoded = λ k s found. cc;
    blobs = refl;
  }

  -- `verify_integrity` passes on every store that calls of `apply` and `put_blob`, with whatever
  -- faults, make of the empty store or of another store with numbered events, counted revisions,
  -- snapshots that have a digest, and blobs under their digests.
  pub verify_integrity-Reaches :
      (start st : Store)
      → (start ≡ empty_store) ⊎ IsIntact start
      → Reaches start st
      → verify_integrity rt snapshot_value raw_digest st ≡ ok tt
  unfolding verify_integrity
  verify_integrity-Reaches start st begins r =
      let first : IsIntact start = elim begins [
        | inl fresh_start ↦ subst IsIntact (sym fresh_start) empty_store-IsIntact
        | inr intact ↦ intact
      ] in
      let h = Reaches-IsIntact first r in
      rw h.blobs
        (check_loops_passes st st.snapshots h.consistent h.encoded h.consistent.keyed (λ k s e. e))
