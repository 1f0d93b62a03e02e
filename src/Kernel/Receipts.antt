-- ===== src/Kernel/Receipts.antt =====
-- `_receipt` of v4_alpha/kernel.py: the receipt that a command names, checked against its action.
pub mod Sound
use loop_skill.Protocol.Outcome.{
  receipt_expired, ok, receipt_identity_mismatch, receipt_issuer_untrusted, raise_if, ◌>>=◌, ◌>>◌,
  receipt_required, require, ◌>>=◌, Result,
}
use loop_skill.Protocol.Envelope.{
  is_before, parse_time, validate_receipt_size, AuthorityContext, Receipt, Command, Runtime,
}
use loop_skill.Prelude.{
  is_empty, none, lookup, ltb, some, ◌&&◌, not, opt_eq, true, ◌==◌, Bool, Dict, Option, String,
}

-- the keyword arguments of `_receipt`
pub record Expected : Type 0 where
  pub action : String
  pub subject_ref : String
  pub attempt_ref : Option String
  pub target_ref : Option String
  pub request_digest : Option String

-- an expectation that may be left out
abbrev pub agrees : Option String → Option String → Bool
agrees none actual = true
agrees (some want) actual = opt_eq actual (some want)

unfoldable pub matches : Expected → Command → Receipt → Bool
matches e c r =
    (r.action == e.action)
    && (r.loop_ref == c.subject.loop_ref)
    && (r.subject_ref == e.subject_ref)
    && agrees e.attempt_ref r.attempt_ref
    && agrees e.target_ref r.target_ref
    && agrees e.request_digest r.request_digest

-- `context.trusted_..._issuers.get(issuer) != trust`
abbrev pub is_trusted : Dict String → String → String → Bool
is_trusted issuers issuer trust = opt_eq (lookup issuer issuers) (some trust)

-- the command is issued inside the window of the receipt
unfoldable pub check_window : Runtime → Command → Receipt → Result (Unit {0})
check_window rt c receipt = do
  now ← parse_time rt c.issued_at
  first ← parse_time rt receipt.issued_at
  early ← is_before now first
  raise_if early receipt_expired
  last ← parse_time rt receipt.expires_at
  late ← is_before last now
  raise_if late receipt_expired

-- the tests of the receipt that the context holds
unfoldable pub check_receipt :
    Runtime → AuthorityContext → Command → Expected → Receipt → Result (Unit {0})
check_receipt rt ctx c e receipt = do
  validate_receipt_size rt receipt
  raise_if (not (is_trusted ctx.trusted_receipt_issuers receipt.issuer_ref receipt.issuer_trust))
      receipt_issuer_untrusted
  check_window rt c receipt
  raise_if (not (matches e c receipt)) receipt_identity_mismatch

unfoldable pub receipt_for : Runtime → AuthorityContext → Command → Expected → Result Receipt
receipt_for rt ctx c e = do
  receipt_ref ← require (lookup "receipt" c.bindings.receipt_refs) receipt_required
  raise_if (is_empty receipt_ref) receipt_required
  receipt ← require (lookup receipt_ref ctx.receipts) receipt_required
  check_receipt rt ctx c e receipt
  ok receipt
