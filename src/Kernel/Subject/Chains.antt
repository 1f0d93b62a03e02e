-- ===== src/Kernel/Subject/Chains.antt =====
-- The chain of records behind a result, and the surface on which a human decision was made.
use loop_skill.Protocol.Value.{num, null, object_of, str, Value}
use loop_skill.Protocol.Outcome.{
  internal_invariant_violation, ok, at_key, fetch, rejection, err, ◌>>=◌, Result,
}
use loop_skill.Protocol.Envelope.{domain_digest, Runtime}
use loop_skill.Prelude.{
  refl, ◌≡◌, ◌++◌, [], ◌==◌, contains, lookup, select, if◌then◌else◌, ◌∷◌, none, some, ℕ, Dict,
  List, Option, String,
}
use loop_skill.Kernel.State.{
  Execution, effects_of, active_goals, Artifact, Goal, LoopResult, Review, ArtifactState,
  ExecutionState, GoalState, Snapshot, Verdict,
}
use mathlib.Core.Option
use Prim.Native.String.{compare}
use Prim.Native.Nat.{Ordering}

-- what `_result_chain` collects of a delivery or of an external effect
pub data ChainLink : Type 0 where
  by_delivery : String → ℕ → String → ℕ → ChainLink
  by_effect : String → ℕ → String → ℕ → ChainLink

pub record SubjectChain : Type 0 where
  pub artifact_ref : String
  pub artifact_revision : ℕ
  pub attempt_ref : String
  pub attempt_revision : ℕ
  pub report_ref : String
  pub report_revision : ℕ
  pub result_ref : String
  pub result_revision : ℕ
  pub link : ChainLink
  pub goal_ref : String
  pub goal_revision : ℕ

-- `_only_record`
pub only_record {ℓ} : {V : Type ℓ} → Dict V → Result (String × V)
only_record [] = err (rejection internal_invariant_violation)
only_record (e ∷ []) = ok e
only_record (e ∷ _ ∷ _) = err (rejection internal_invariant_violation)

current_result : Snapshot → Option String → Result (String × LoopResult)
unfolding only_record
current_result s (some result_ref) = do result ← fetch result_ref s.results; ok (result_ref, result)
current_result s none = only_record s.results

-- the goal of a result that has an external effect
effect_goal : Snapshot → Option String → Result String
unfolding only_record
effect_goal s (some goal_ref) =
    if contains goal_ref s.goals then ok goal_ref else (do e ← only_record s.goals; ok e.0)
effect_goal s none = do e ← only_record s.goals; ok e.0

delivery_link : Snapshot → LoopResult → String → Result (ChainLink × String)
delivery_link s result delivery_ref = do
  route_ref ← at_key result.route_ref
  route ← fetch route_ref s.routes
  delivery ← fetch delivery_ref s.deliveries
  ok (by_delivery delivery_ref delivery.revision route_ref route.revision, route.goal_ref)

effect_link : Snapshot → LoopResult → Result (ChainLink × String)
unfolding effect_goal
effect_link s result = do
  effect_ref ← at_key result.external_effect_ref
  effects ← effects_of s
  effect ← fetch effect_ref effects
  goal_ref ← effect_goal s result.goal_ref
  resource ← fetch effect.host_resource_ref s.host_resources
  ok (by_effect effect_ref effect.revision effect.host_resource_ref resource.revision, goal_ref)

result_link : Snapshot → LoopResult → Option String → Result (ChainLink × String)
unfolding delivery_link effect_link
result_link s result (some delivery_ref) = delivery_link s result delivery_ref
result_link s result none = effect_link s result

unfoldable pub result_chain : Snapshot → Result SubjectChain
unfolding current_result result_link
result_chain s = do
  (result_ref, result) ← current_result s s.current_result_ref
  artifact_ref ← at_key result.artifact_ref
  artifact ← fetch artifact_ref s.artifacts
  attempt ← fetch result.attempt_ref s.attempts
  report ← fetch result.report_ref s.reports
  (link, goal_ref) ← result_link s result result.delivery_ref
  goal ← fetch goal_ref s.goals
  ok (record {
    artifact_ref = artifact_ref;
    artifact_revision = artifact.revision;
    attempt_ref = result.attempt_ref;
    attempt_revision = attempt.revision;
    report_ref = result.report_ref;
    report_revision = report.revision;
    result_ref = result_ref;
    result_revision = result.revision;
    link = link;
    goal_ref = goal_ref;
    goal_revision = goal.revision;
  })

-- the review of the current result
unfoldable pub final_chain : Snapshot → Result (SubjectChain × String × Review)
final_chain s = do
  chain ← result_chain s
  (review_ref, review) ←
      only_record (select (λ (r : Review). r.result_ref == chain.result_ref) s.reviews)
  ok (chain, review_ref, review)

link_fields : ChainLink → List (String × Value)
link_fields (by_delivery delivery delivery_rev route route_rev) =
    ("delivery_ref", str delivery)
    ∷ ("delivery_revision", num delivery_rev)
    ∷ ("route_ref", str route)
    ∷ ("route_revision", num route_rev)
    ∷ []
link_fields (by_effect effect effect_rev resource resource_rev) =
    ("external_effect_ref", str effect)
    ∷ ("external_effect_revision", num effect_rev)
    ∷ ("host_resource_ref", str resource)
    ∷ ("host_resource_revision", num resource_rev)
    ∷ []

-- the chain as a dictionary, with the entries that `_final_chain` adds
unfoldable pub chain_value : SubjectChain → List (String × Value) → Value
unfolding link_fields
chain_value c more = object_of (
    ("artifact_ref", str c.artifact_ref)
    ∷ ("artifact_revision", num c.artifact_revision)
    ∷ ("attempt_ref", str c.attempt_ref)
    ∷ ("attempt_revision", num c.attempt_revision)
    ∷ ("report_ref", str c.report_ref)
    ∷ ("report_revision", num c.report_revision)
    ∷ ("result_ref", str c.result_ref)
    ∷ ("result_revision", num c.result_revision)
    ∷ ("goal_ref", str c.goal_ref)
    ∷ ("goal_revision", num c.goal_revision)
    ∷ (link_fields c.link ++ more))

-- `domain_digest("loopskill-subject-chain-v1\n", _final_chain(snapshot))`
unfoldable pub final_chain_digest : Runtime → SubjectChain → String → Review → Result String
final_chain_digest rt chain review_ref review = domain_digest rt "loopskill-subject-chain-v1\n" (
    chain_value chain
      (("review_ref", str review_ref) ∷ ("review_revision", num review.revision) ∷ []))

-- `sorted(d.items())[-1]`: the entry with the greatest key
abbrev greater {ℓ} : {V : Type ℓ} → String × V → Option (String × V) → String × V
greater e none = e
greater e (some f) = elim (compare e.0 f.0) [ Ordering.lt ↦ f | _ ↦ e ]

last_entry {ℓ} : {V : Type ℓ} → Dict V → Option (String × V)
last_entry [] = none
last_entry (e ∷ d) = some (greater e (last_entry d))

goal_text : GoalState → String
goal_text GoalState.pending = "PENDING"
goal_text GoalState.active = "ACTIVE"
goal_text GoalState.done = "DONE"
goal_text GoalState.skipped = "SKIPPED"
goal_text GoalState.failed = "FAILED"
goal_text GoalState.limitation = "LIMITATION"
goal_text GoalState.stopped = "STOPPED"

artifact_text : ArtifactState → String
artifact_text ArtifactState.verified = "VERIFIED"
artifact_text ArtifactState.unverifiable = "UNVERIFIABLE"

verdict_text : Verdict → String
verdict_text Verdict.pass = "PASS"
verdict_text Verdict.repair = "REPAIR"
verdict_text Verdict.limitation = "LIMITATION"

execution_text : ExecutionState → String
execution_text ExecutionState.active = "ACTIVE"
execution_text ExecutionState.paused = "PAUSED"
execution_text ExecutionState.finalizing = "FINALIZING"
execution_text ExecutionState.terminal = "TERMINAL"

entry_value : Option (String × ℕ × String) → Value
entry_value none = null
entry_value (some (reference, revision, state)) =
    object_of (("ref", str reference) ∷ ("revision", num revision) ∷ ("state", str state) ∷ [])

abbrev goal_entry : String × Goal → String × ℕ × String
goal_entry (reference, g) = (reference, g.revision, goal_text g.state)

abbrev artifact_entry : String × Artifact → String × ℕ × String
artifact_entry (reference, a) = (reference, a.revision, artifact_text a.state)

abbrev review_entry : String × Review → String × ℕ × String
review_entry (reference, r) = (reference, r.revision, verdict_text r.state)

context_value :
    Snapshot
    → Option (String × Goal)
    → Option (String × Artifact)
    → Option (String × Review)
    → Value
unfolding entry_value goal_text artifact_text verdict_text execution_text
context_value s goal artifact review = object_of (
    ("artifact", entry_value (Option.map artifact_entry artifact))
    ∷ (
      "execution",
      object_of (
          ("revision", num s.execution.revision)
          ∷ ("state", str (execution_text s.execution.state))
          ∷ []),
    )
    ∷ ("goal", entry_value (Option.map goal_entry goal))
    ∷ ("loop_ref", str s.loop_ref)
    ∷ ("loop_revision", num s.loop_revision)
    ∷ ("review", entry_value (Option.map review_entry review))
    ∷ [])

context_of : Snapshot → Dict Goal → Value
unfolding context_value last_entry
context_of s ((goal_ref, goal) ∷ []) =
    let chain = goal.chain_refs in
    context_value s (some (goal_ref, goal))
      (Option.map (λ (a : Artifact). (chain.artifact_ref, a))
        (lookup chain.artifact_ref s.artifacts))
      (Option.map (λ (r : Review). (chain.review_ref, r)) (lookup chain.review_ref s.reviews))
context_of s _ =
    context_value s (last_entry s.goals) (last_entry s.artifacts) (last_entry s.reviews)

pub policy_context : Snapshot → Value
unfolding context_of
policy_context s = context_of s (active_goals s)

pub policy_context_digest : Runtime → Snapshot → Result String
policy_context_digest rt s = domain_digest rt "loopskill-human-context-v1\n" (policy_context s)

-- the chain behind a result does not depend on the execution
pub final_chain-execution :
    (s : Snapshot) (x : Execution) → final_chain (record s { execution = x }) ≡ final_chain s
unfolding final_chain result_chain
final_chain-execution s x = refl
