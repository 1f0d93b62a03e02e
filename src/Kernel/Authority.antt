-- ===== src/Kernel/Authority.antt =====
-- `validate_authority` and `_validate_plan_selector` of v4_alpha/kernel.py.
mod PlanSelector
pub mod Sound
use loop_skill.Kernel.Receipts.{is_trusted}
use loop_skill.Protocol.Value.{boolean, array_of, num, object_of, str, Value}
use loop_skill.Protocol.Outcome.{
  raise_if, Result, authority_expired, authority_scope_mismatch, invalid_authority, require, ◌>>=◌,
  ◌>>◌,
}
use loop_skill.Protocol.Envelope.{
  command_name, is_before, parse_time, domain_digest, exact_subjects, plan_selector,
  AuthorityContext, Command, Grant, Runtime, Scope, Selector,
}
use loop_skill.Prelude.{
  List, Option, String, [], contains, elem, is_nil, lookup, ltb, not, ◌&&◌, ◌==◌, ◌∷◌,
}
use loop_skill.Kernel.State.{Snapshot}
use PlanSelector.{validate_plan_selector}

grant_fields : Grant → List (String × Value)
grant_fields g =
    ("grant_ref", str g.grant_ref)
    ∷ ("actor_ref", str g.actor_ref)
    ∷ ("issuer_actor_ref", str g.issuer_actor_ref)
    ∷ ("issuer_trust", str g.issuer_trust)
    ∷ ("allowed_commands", array_of g.allowed_commands)
    ∷ ("loop_scope", str g.loop_scope)
    ∷ ("subject_kinds", array_of g.subject_kinds)
    ∷ ("not_before", str g.not_before)
    ∷ ("expires_at", str g.expires_at)
    ∷ ("nonce", str g.nonce)
    ∷ []

selector_value : Selector → Value
selector_value s = object_of (
    ("goal_index_max", num s.goal_index_max)
    ∷ ("goal_index_min", num s.goal_index_min)
    ∷ ("include_loop_scope", boolean s.include_loop_scope)
    ∷ ("mode", str s.mode)
    ∷ ("plan_digest", str s.plan_digest)
    ∷ [])

scoped_digest : Runtime → Grant → Scope → Result String
unfolding grant_fields selector_value
scoped_digest rt g (exact_subjects subjects) =
    domain_digest rt "loopskill-authority-grant-v1\n"
      (object_of (("exact_subjects", array_of subjects) ∷ grant_fields g))
scoped_digest rt g (plan_selector schema selector) =
    domain_digest rt "loopskill-authority-grant-v2\n" (
      object_of
        (("schema", str schema) ∷ ("subject_selector", selector_value selector) ∷ grant_fields g))

-- `authority_grant_digest` of v4_alpha/protocol.py
unfoldable pub authority_grant_digest : Runtime → Grant → Result String
unfolding scoped_digest
authority_grant_digest rt g = scoped_digest rt g g.scope

-- what the grant says of the subject
unfoldable pub check_scope : Runtime → Scope → Command → Option Snapshot → Result (Unit {0})
check_scope rt (plan_selector schema selector) c s = do
  raise_if (not (schema == "loopskill-authority-grant-v2")) invalid_authority
  validate_plan_selector rt selector c s
check_scope rt (exact_subjects subjects) c s =
    raise_if (not (is_nil subjects) && not (elem c.subject.subject_ref subjects))
      authority_scope_mismatch

unfoldable pub check_actor : AuthorityContext → Command → Result (Unit {0})
check_actor ctx c = do
  actor ← require (lookup c.actor_ref ctx.actors) invalid_authority
  raise_if (not (is_trusted ctx.trusted_actor_issuers actor.issuer_ref actor.issuer_trust))
      invalid_authority
  raise_if (not (actor.actor_ref == c.actor_ref)) invalid_authority
  raise_if (not (actor.loop_namespace == c.subject.loop_ref)) authority_scope_mismatch

unfoldable pub check_grant :
    Runtime → AuthorityContext → Command → Option Snapshot → Grant → Result (Unit {0})
check_grant rt ctx c s grant = do
  raise_if (not (grant.actor_ref == c.actor_ref)) invalid_authority
  raise_if (not (is_trusted ctx.trusted_grant_issuers grant.issuer_actor_ref grant.issuer_trust))
      invalid_authority
  raise_if (not (contains grant.issuer_actor_ref ctx.actors)) invalid_authority
  digest ← authority_grant_digest rt grant
  raise_if (not (grant.canonical_digest == digest)) invalid_authority
  now ← parse_time rt c.issued_at
  first ← parse_time rt grant.not_before
  early ← is_before now first
  raise_if early authority_expired
  last ← parse_time rt grant.expires_at
  late ← is_before last now
  raise_if late authority_expired
  raise_if (not (grant.loop_scope == c.subject.loop_ref)) authority_scope_mismatch
  raise_if (not (elem (command_name c.command_type) grant.allowed_commands))
      authority_scope_mismatch
  raise_if (not (elem c.subject.subject_kind grant.subject_kinds)) authority_scope_mismatch
  check_scope rt grant.scope c s

unfoldable pub validate_authority :
    Runtime → AuthorityContext → Command → Option Snapshot → Result (Unit {0})
validate_authority rt ctx c s = do
  check_actor ctx c
  grant ← require (lookup c.authority_grant_ref ctx.grants) invalid_authority
  check_grant rt ctx c s grant
