-- ===== src/Plan/Parts.antt =====
-- The parts of a plan document: what `_canonicalize_plan_v1` and `_canonicalize_plan_v2` of
-- v4_alpha/plan_codec.py do with each. A call that raises gives none.
use Prim.Native.Nat.{suc, zero, ◌^◌}
use loop_skill.Plan.Checks.{
  Unicode, boolean?, closed, field, integer, is_numbered, one_of, string_array, text,
}
use loop_skill.Plan.Document.{
  Boundaries, Budget, GoalPolicy, PlanGoal, RoadmapPolicy, Source, WorkerProfile,
}
use loop_skill.Prelude.{
  is_digest, Bool, Dict, List, Option, String, [], any, contains, eqb, false, has_prefix, is_some,
  ltb, none, not, some, sorted_items, true, ℕ, ◌&&◌, ◌-◌, ◌==◌, ◌||◌, ◌∷◌,
}
use loop_skill.Protocol.Envelope.{Moment, Runtime}
use loop_skill.Protocol.Partial.{unless, ◌>>=◌}
use loop_skill.Protocol.Value.{Members, Value, Values, cons, end, member, nil, object, size_members}

-- `m[k]` and its check
unfoldable pub at {κ} : {A : Type κ} → String → Members → (Value → Option A) → Option A
at k ms check = field k ms >>= check

-- CAPACITY_CONTRACT["item_max_bytes"]
abbrev pub item_max_bytes : ℕ
item_max_bytes = 1024

unfoldable pub not_retained : Value → Option Bool
not_retained (Value.boolean false) = some false
not_retained _ = none

module _ (u : Unicode) where
  -- the source, whose kind is one of PLAN_SOURCE_KINDS
  unfoldable pub source_of : Value → Option Source
  source_of value = do
    ms ← closed ("kind" ∷ "source_digest" ∷ "source_content_retained" ∷ []) value
    kind ← at "kind" ms (
        one_of (
          "literal_text" ∷ "pasted_text" ∷ "authorized_file" ∷ "expert_semantic_json"
          ∷ "canonical_plan_json" ∷ []))
    source_digest ← at "source_digest" ms (text u 64)
    retained ← at "source_content_retained" ms not_retained
    unless (not (is_digest source_digest))
        (some (record { kind = kind; source_digest = source_digest }))

  unfoldable pub boundaries_of : Value → Option Boundaries
  boundaries_of value = do
    ms ←
        closed
          ("write_scope" ∷ "forbidden_paths" ∷ "forbidden_actions" ∷ "external_actions"
            ∷ "destructive_actions_allowed" ∷ [])
          value
    allowed ← at "destructive_actions_allowed" ms boolean?
    external ← at "external_actions" ms (string_array u 16 true item_max_bytes)
    actions ← at "forbidden_actions" ms (string_array u 16 true item_max_bytes)
    paths ← at "forbidden_paths" ms (string_array u 32 true item_max_bytes)
    scope ← at "write_scope" ms (string_array u 32 false item_max_bytes)
    some (record {
      destructive_actions_allowed = allowed;
      external_actions = external;
      forbidden_actions = actions;
      forbidden_paths = paths;
      write_scope = scope;
    })

  unfoldable pub currency_of : Value → Option (Option String)
  currency_of Value.null = some none
  currency_of value = text u 16 value >>= λ s. some (some (u.upper s))

  -- the bounds of the host invocations and of the time
  unfoldable pub budget_of : ℕ → ℕ → ℕ → Value → Option Budget
  unfolding currency_of
  budget_of min_invocations max_invocations max_seconds value = do
    ms ←
        closed
          ("wall_clock_seconds" ∷ "max_host_invocations" ∷ "max_cost_minor_units" ∷ "currency" ∷ [])
          value
    currency ← at "currency" ms currency_of
    cost ← at "max_cost_minor_units" ms (integer 0 (2 ^ 63 - 1))
    invocations ← at "max_host_invocations" ms (integer min_invocations max_invocations)
    seconds ← at "wall_clock_seconds" ms (integer 1 max_seconds)
    unless (ltb 0 cost && not (is_some currency)) (
        some (record {
          currency = currency;
          max_cost_minor_units = cost;
          max_host_invocations = invocations;
          wall_clock_seconds = seconds;
        }))

  unfoldable pub roadmap_of : Value → Option RoadmapPolicy
  roadmap_of value = do
    ms ← closed ("mode" ∷ "max_reorders" ∷ []) value
    mode ← at "mode" ms (one_of ("STANDARD" ∷ "ADAPTIVE" ∷ []))
    max_reorders ← at "max_reorders" ms (integer 0 16)
    unless ((mode == "STANDARD") && not (eqb max_reorders 0))
        (some (record { max_reorders = max_reorders; mode = mode }))

  unfoldable pub requirements_in : Members → Option (Dict String)
  requirements_in end = some []
  requirements_in (member requirement_id value ms) =
      unless (not (is_numbered 114 requirement_id)) (do
        requirement ← text u 8192 value
        rest ← requirements_in ms
        some ((requirement_id, requirement) ∷ rest))

  unfoldable pub requirements_of : Value → Option (Dict String)
  requirements_of (object ms) =
      unless (ltb 256 (size_members ms)) (requirements_in ms >>= λ d. some (sorted_items d))
  requirements_of _ = none

  unfoldable pub profile_of : Value → Option WorkerProfile
  profile_of value = do
    ms ←
        closed
          ("attempt_timeout_seconds" ∷ "local_verification" ∷ "model" ∷ "network_access"
            ∷ "reasoning_effort" ∷ "sandbox" ∷ [])
          value
    sandbox ← at "sandbox" ms (one_of ("workspace-write" ∷ []))
    effort ← at "reasoning_effort" ms (one_of ("low" ∷ "medium" ∷ "high" ∷ "xhigh" ∷ "max" ∷ []))
    network ← at "network_access" ms boolean?
    verification ← at "local_verification" ms boolean?
    timeout ← at "attempt_timeout_seconds" ms (integer 1 30000)
    model ← at "model" ms (text u 128)
    some (record {
      attempt_timeout_seconds = timeout;
      local_verification = verification;
      model = model;
      network_access = network;
      reasoning_effort = effort;
    })

  unfoldable pub goal_id_of : Value → Option String
  goal_id_of value = text u 16 value >>= λ s. unless (not (is_numbered 103 s)) (some s)

  -- a Goal of loopskill-plan-v1
  unfoldable pub goal_v1 : Value → Option PlanGoal
  goal_v1 value = do
    ms ← closed ("goal_id" ∷ "objective" ∷ "acceptance_criteria" ∷ []) value
    goal_id ← at "goal_id" ms goal_id_of
    criteria ← at "acceptance_criteria" ms (string_array u 16 false item_max_bytes)
    objective ← at "objective" ms (text u 2048)
    some (record {
      acceptance_criteria = criteria;
      goal_id = goal_id;
      objective = objective;
      policy = none;
    })

-- `s[n:]`
unfoldable pub slice_from : ℕ → String → String
slice_from zero s = s
slice_from (suc n) String.[] = String.[]
slice_from (suc n) (String.◌∷◌ c s) = slice_from n s

unfoldable pub is_approval : List String → Bool
is_approval (v ∷ []) = v == "human-approval"
is_approval _ = false

-- a `datetime` that parses and has a time zone
abbrev pub is_aware : Option Moment → Bool
is_aware none = false
is_aware (some m) = m.aware

unfoldable pub is_due : Runtime → List String → Bool
is_due rt (v ∷ []) = has_prefix "time-after:" v && is_aware (rt.fromisoformat (slice_from 11 v))
is_due rt _ = false

-- what a Goal of loopskill-plan-v2 is refused for, given the requirements of the plan
unfoldable pub invalid_policy : Runtime → Dict String → GoalPolicy → Bool
unfolding is_approval is_due slice_from
invalid_policy rt requirements p =
    any (λ reference. not (contains reference requirements)) p.requirement_refs
    || ((p.requirement == "required") && (p.on_blocked == "skip"))
    || (not (p.gate == "worker") && not (p.recovery_policy == "human"))
    || ((p.gate == "human") && not (is_approval p.verifiers))
    || ((p.gate == "time") && not (is_due rt p.verifiers))

unfoldable pub policy_of : Runtime → Unicode → Dict String → Members → Option GoalPolicy
policy_of rt u requirements ms = do
  refs ← at "requirement_refs" ms (string_array u 64 true item_max_bytes)
  requirement ← at "requirement" ms (one_of ("required" ∷ "optional" ∷ []))
  gate ← at "gate" ms (one_of ("worker" ∷ "human" ∷ "time" ∷ []))
  on_failure ← at "on_failure" ms (one_of ("repair" ∷ "wait" ∷ "fail" ∷ []))
  on_blocked ← at "on_blocked" ms (one_of ("wait" ∷ "skip" ∷ []))
  recovery ← at "recovery_policy" ms (one_of ("resume" ∷ "reconcile" ∷ "human" ∷ []))
  replay ← at "replay_safety" ms (one_of ("file_local" ∷ "idempotent" ∷ "non_replayable" ∷ []))
  verifiers ← at "verifiers" ms (string_array u 32 false 4096)
  capabilities ← at "capabilities" ms (string_array u 32 true item_max_bytes)
  max_attempts ← at "max_attempts" ms (integer 1 3)
  let policy : GoalPolicy = record {
    capabilities = capabilities;
    gate = gate;
    max_attempts = max_attempts;
    on_blocked = on_blocked;
    on_failure = on_failure;
    recovery_policy = recovery;
    replay_safety = replay;
    requirement = requirement;
    requirement_refs = refs;
    verifiers = verifiers;
  }
  unless (invalid_policy rt requirements policy) (some policy)

-- GOAL_V2_FIELDS
abbrev pub goal_v2_fields : List String
goal_v2_fields =
    "acceptance_criteria" ∷ "capabilities" ∷ "gate" ∷ "goal_id" ∷ "max_attempts" ∷ "objective"
    ∷ "on_blocked" ∷ "on_failure" ∷ "recovery_policy" ∷ "replay_safety" ∷ "requirement"
    ∷ "requirement_refs" ∷ "verifiers" ∷ []

-- a Goal of loopskill-plan-v2
unfoldable pub goal_v2 : Runtime → Unicode → Dict String → Value → Option PlanGoal
goal_v2 rt u requirements value = do
  ms ← closed goal_v2_fields value
  goal_id ← at "goal_id" ms (goal_id_of u)
  policy ← policy_of rt u requirements ms
  criteria ← at "acceptance_criteria" ms (string_array u 16 false item_max_bytes)
  objective ← at "objective" ms (text u 8192)
  some (record {
    acceptance_criteria = criteria;
    goal_id = goal_id;
    objective = objective;
    policy = some policy;
  })

unfoldable pub goals_in : (Value → Option PlanGoal) → Values → Option (List PlanGoal)
goals_in parse nil = some []
goals_in parse (cons v vs) = do g ← parse v; goals ← goals_in parse vs; some (g ∷ goals)
