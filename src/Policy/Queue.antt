-- ===== src/Policy/Queue.antt =====
-- A Standard queue is in the order of its dependencies.
use loop_skill.Prelude.{
  append_nil, List, String, [], append_assoc, arith, some, subset, true, ◌++◌, ◌∷◌, ◌≡◌,
}
use loop_skill.Policy.{build_standard_queue, identifiers, is_queue, GoalSpec, PolicyEnvelope}

is_queue_lem :
    (prior : List String) (before after : List GoalSpec) (g : GoalSpec)
    → is_queue prior (before ++ (g ∷ after)) ≡ true
    → subset g.depends_on (prior ++ identifiers before) ≡ true
unfolding is_queue
is_queue_lem prior [] after g h = rw (append_nil prior) (ground arith)
is_queue_lem prior (b ∷ before) after g h =
    let rest = is_queue_lem (prior ++ (b.goal_id ∷ [])) before after g (ground arith) in
    rw (append_assoc prior (b.goal_id ∷ []) (identifiers before)) at rest

-- A queue that is built is the list of Goals that was given, and wherever it is split at a Goal,
-- what that Goal depends on stands before it.
pub build_standard_queue_ordered :
    (goals queue : List GoalSpec) (envelope : PolicyEnvelope) (before after : List GoalSpec)
    (g : GoalSpec)
    → build_standard_queue goals envelope ≡ some queue
    → queue ≡ before ++ (g ∷ after)
    → (queue ≡ goals) × (subset g.depends_on (identifiers before) ≡ true)
unfolding build_standard_queue
build_standard_queue_ordered goals queue envelope before after g h e =
    let same : queue ≡ goals = ground arith in
    let ordered : is_queue [] goals ≡ true = ground arith in
    (same, is_queue_lem [] before after g (rw (← e, same) ordered))
