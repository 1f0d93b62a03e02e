-- ===== src/Kernel/Authority/Sound.antt =====
-- What an accepted command's authority has been tested for.
use loop_skill.Protocol.Outcome.{>>=-eq-ok, invalid_authority, require, ok}
use loop_skill.Protocol.Envelope.{command_name, ActorRef, AuthorityContext, Command, Grant, Runtime}
use loop_skill.Prelude.{
  String, ap, sym, ◌==◌, ◌∙◌, Option, arith, elem, eq_iff, lookup, some, true, ◌≡◌,
}
use loop_skill.Kernel.State.{Snapshot}
use loop_skill.Kernel.Authority.{
  authority_grant_digest, check_actor, check_grant, validate_authority,
}
use loop_skill.Kernel.Receipts.{is_trusted}

-- the grant and the actor of a command, as `validate_authority` has tested them
pub record IsAuthorized (rt : Runtime) (ctx : AuthorityContext) (c : Command) (actor : ActorRef)
    (grant : Grant) : Type 0 where
  pub actor_known : lookup c.actor_ref ctx.actors ≡ some actor
  pub actor_trusted :
      is_trusted ctx.trusted_actor_issuers actor.issuer_ref actor.issuer_trust ≡ true
  pub grant_known : lookup c.authority_grant_ref ctx.grants ≡ some grant
  pub grant_actor : grant.actor_ref ≡ c.actor_ref
  pub grant_trusted :
      is_trusted ctx.trusted_grant_issuers grant.issuer_actor_ref grant.issuer_trust ≡ true
  pub grant_intact : authority_grant_digest rt grant ≡ ok grant.canonical_digest
  pub actor_loop : actor.loop_namespace ≡ c.subject.loop_ref
  pub grant_loop : grant.loop_scope ≡ c.subject.loop_ref
  pub command_allowed : elem (command_name c.command_type) grant.allowed_commands ≡ true
  pub kind_allowed : elem c.subject.subject_kind grant.subject_kinds ≡ true

module _ (rt : Runtime) (ctx : AuthorityContext) (c : Command) where
  actor_lem :
      check_actor ctx c ≡ ok tt
      → (actor : ActorRef) × (lookup c.actor_ref ctx.actors ≡ some actor)
        × (is_trusted ctx.trusted_actor_issuers actor.issuer_ref actor.issuer_trust ≡ true)
        × ((actor.loop_namespace == c.subject.loop_ref) ≡ true)
  unfolding check_actor
  actor_lem h = ground arith

  known_lem :
      (s : Option Snapshot)
      → validate_authority rt ctx c s ≡ ok tt
      → (grant : Grant) × (lookup c.authority_grant_ref ctx.grants ≡ some grant)
  unfolding validate_authority
  known_lem s h =
      let (_, _, granted) = >>=-eq-ok (check_actor ctx c) _ h in
      let (grant, known, _) =
        >>=-eq-ok (require (lookup c.authority_grant_ref ctx.grants) invalid_authority) _ granted in
      (grant, ground arith)

  grant_lem :
      (s : Option Snapshot)
      → validate_authority rt ctx c s ≡ ok tt
      → (grant : Grant) × (lookup c.authority_grant_ref ctx.grants ≡ some grant)
        × (check_actor ctx c ≡ ok tt)
        × (check_grant rt ctx c s grant ≡ ok tt)
  unfolding validate_authority
  grant_lem s h = (let (grant, e) = known_lem s h in (grant, e, ground arith, ground arith))

  checked_lem :
      (s : Option Snapshot) (g : Grant)
      → check_grant rt ctx c s g ≡ ok tt
      → ((g.actor_ref == c.actor_ref) ≡ true)
        × (is_trusted ctx.trusted_grant_issuers g.issuer_actor_ref g.issuer_trust ≡ true)
        × ((digest : String) × (authority_grant_digest rt g ≡ ok digest)
            × ((g.canonical_digest == digest) ≡ true))
        × ((g.loop_scope == c.subject.loop_ref) ≡ true)
        × (elem (command_name c.command_type) g.allowed_commands ≡ true)
        × (elem c.subject.subject_kind g.subject_kinds ≡ true)
  unfolding check_grant
  checked_lem s g h =
      (ground arith, ground arith, ground arith, ground arith, ground arith, ground arith)

  -- A command that `validate_authority` accepts has a known actor of the loop with a trusted issuer,
  -- and a grant of its own, intact under its digest, from a trusted issuer, for this loop, this
  -- command type and this kind of subject.
  pub validate_authority-IsAuthorized :
      (s : Option Snapshot)
      → validate_authority rt ctx c s ≡ ok tt
      → (actor : ActorRef) × (grant : Grant) × IsAuthorized rt ctx c actor grant
  validate_authority-IsAuthorized s h =
      let (grant, known, acted, granted) = grant_lem s h in
      let (actor, found, trusted, own) = actor_lem acted in
      let (mine, issued, (digest, made, intact), scope, command, kind) =
        checked_lem s grant granted in
      (
        actor,
        grant,
        record {
          actor_known = found;
          actor_trusted = trusted;
          grant_known = known;
          grant_actor = (eq_iff grant.actor_ref c.actor_ref).0 mine;
          grant_trusted = issued;
          grant_intact = made ∙ ap ok (sym ((eq_iff grant.canonical_digest digest).0 intact));
          actor_loop = (eq_iff actor.loop_namespace c.subject.loop_ref).0 own;
          grant_loop = (eq_iff grant.loop_scope c.subject.loop_ref).0 scope;
          command_allowed = command;
          kind_allowed = kind;
        },
      )
