-- ===== src/Kernel/Receipts/Sound.antt =====
-- What a receipt that a reducer uses has been tested for.
use loop_skill.Protocol.Outcome.{
  receipt_expired, raise_if-eq-ok, raise_if, >>=-eq-ok, receipt_required, require, ok,
}
use loop_skill.Protocol.Envelope.{
  is_before, Moment, parse_time, AuthorityContext, Command, Receipt, Runtime,
}
use loop_skill.Prelude.{Bool, ◌&&◌, String, arith, eq_iff, false, lookup, some, true, ◌≡◌, ◌≤◌}
use loop_skill.Kernel.Receipts.{
  check_receipt, check_window, agrees, is_trusted, matches, receipt_for, Expected,
}

-- the command was issued inside the window of the receipt
abbrev pub InWindow : Runtime → Command → Receipt → Type 0
InWindow rt c r =
    (now : Moment) × (first : Moment) × (last : Moment) × (rt.fromisoformat c.issued_at ≡ some now)
    × (rt.fromisoformat r.issued_at ≡ some first)
    × (rt.fromisoformat r.expires_at ≡ some last)
    × (first.microseconds ≤ now.microseconds)
    × (now.microseconds ≤ last.microseconds)

-- the tests of `_receipt`
pub record IsAccepted (rt : Runtime) (ctx : AuthorityContext) (c : Command) (e : Expected)
    (r : Receipt) : Type 0 where
  pub named :
      (ref : String) × (lookup "receipt" c.bindings.receipt_refs ≡ some ref)
      × (lookup ref ctx.receipts ≡ some r)
  pub trusted : is_trusted ctx.trusted_receipt_issuers r.issuer_ref r.issuer_trust ≡ true
  pub in_window : InWindow rt c r
  pub same_action : r.action ≡ e.action
  pub same_loop : r.loop_ref ≡ c.subject.loop_ref
  pub same_subject : r.subject_ref ≡ e.subject_ref
  pub same_request : agrees e.request_digest r.request_digest ≡ true

not_before→le :
    (a b : Moment) (t : Bool) → is_before a b ≡ ok t → t ≡ false → b.microseconds ≤ a.microseconds
unfolding is_before
not_before→le a b t h e = ground arith

parsed :
    (rt : Runtime) (text : String) (n : Moment)
    → parse_time rt text ≡ ok n
    → rt.fromisoformat text ≡ some n
unfolding parse_time
parsed rt text n h = ground arith

all_six :
    (a b x d e f : Bool)
    → (a && b && x && d && e && f) ≡ true
    → (a ≡ true) × (b ≡ true) × (x ≡ true) × (f ≡ true)
all_six a b x d e f h = ground arith

module _ (rt : Runtime) (ctx : AuthorityContext) (c : Command) (e : Expected) where
  window_lem : (r : Receipt) → check_window rt c r ≡ ok tt → InWindow rt c r
  unfolding check_window
  window_lem r h =
      let (now, at_now, h1) = >>=-eq-ok (parse_time rt c.issued_at) _ h in
      let (first, at_first, h2) = >>=-eq-ok (parse_time rt r.issued_at) _ h1 in
      let (early, before_first, h3) = >>=-eq-ok (is_before now first) _ h2 in
      let (_, not_early, h4) = >>=-eq-ok (raise_if early receipt_expired) _ h3 in
      let (last, at_last, h5) = >>=-eq-ok (parse_time rt r.expires_at) _ h4 in
      let (late, after_last, h6) = >>=-eq-ok (is_before last now) _ h5 in
      (
        now,
        first,
        last,
        parsed rt c.issued_at now at_now,
        parsed rt r.issued_at first at_first,
        parsed rt r.expires_at last at_last,
        not_before→le now first early before_first (raise_if-eq-ok early receipt_expired not_early),
        not_before→le last now late after_last (raise_if-eq-ok late receipt_expired h6),
      )

  -- the receipt that is returned, and its tests
  found_lem :
      (r : Receipt)
      → receipt_for rt ctx c e ≡ ok r
      → (ref : String) × (lookup "receipt" c.bindings.receipt_refs ≡ some ref)
        × (lookup ref ctx.receipts ≡ some r)
        × (check_receipt rt ctx c e r ≡ ok tt)
  unfolding receipt_for
  found_lem r h =
      let (ref, named, h1) =
        >>=-eq-ok (require (lookup "receipt" c.bindings.receipt_refs) receipt_required) _ h in
      (ref, ground arith, ground arith, ground arith)

  tested_lem :
      (r : Receipt)
      → check_receipt rt ctx c e r ≡ ok tt
      → (is_trusted ctx.trusted_receipt_issuers r.issuer_ref r.issuer_trust ≡ true)
        × (check_window rt c r ≡ ok tt)
        × (matches e c r ≡ true)
  unfolding check_receipt
  tested_lem r h = (ground arith, ground arith, ground arith)

  -- A receipt that `_receipt` returns is the one that the command names, its issuer is trusted for
  -- its trust, the command was issued inside its window, and it is about the action, the loop, the
  -- subject and the request that the reducer asks for.
  pub receipt_for-IsAccepted :
      (r : Receipt) → receipt_for rt ctx c e ≡ ok r → IsAccepted rt ctx c e r
  unfolding matches
  receipt_for-IsAccepted r h =
      let (ref, named, known, tested) = found_lem r h in
      let (trusted, window, matched) = tested_lem r tested in
      let (action, loop, subject, request) = all_six _ _ _ _ _ _ matched in
      record {
        named = (ref, named, known);
        trusted = trusted;
        in_window = window_lem r window;
        same_action = (eq_iff r.action e.action).0 action;
        same_loop = (eq_iff r.loop_ref c.subject.loop_ref).0 loop;
        same_subject = (eq_iff r.subject_ref e.subject_ref).0 subject;
        same_request = request;
      }
