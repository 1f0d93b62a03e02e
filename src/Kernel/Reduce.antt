-- ===== src/Kernel/Reduce.antt =====
-- `reduce_command` of v4_alpha/kernel.py: a command is validated, authorized and checked against the
-- snapshot, and then the reducer of its type runs on a copy.
pub mod Revision
pub mod Frame
pub mod Honest
use loop_skill.Kernel.Subject.{validate_references}
use loop_skill.Kernel.Authority.{validate_authority}
use loop_skill.Protocol.Validate.{validate_command}
use loop_skill.Protocol.Outcome.{
  raise_if, Result, err, invalid_command, invalid_transition, ok, rejection,
  resource_limit_exceeded, ◌>>=◌, ◌>>◌,
}
use loop_skill.Protocol.Envelope.{AuthorityContext, Command, CommandType, Runtime}
use loop_skill.Prelude.{Bool, Option, false, length, ltb, none, some, true, ℕ, ◌+◌}
use loop_skill.Kernel.State.{Reduction, Snapshot}
use loop_skill.Kernel.Closure
use loop_skill.Kernel.Delivery
use loop_skill.Kernel.Effects
use loop_skill.Kernel.Lifecycle
use loop_skill.Kernel.Repair
use loop_skill.Kernel.Results
use loop_skill.Kernel.Review
use loop_skill.Kernel.Roadmap
use loop_skill.Kernel.Startup

abbrev pub max_events_per_command : ℕ
max_events_per_command = 16

-- `_REDUCERS`, for a loop that exists
unfoldable pub reducer :
    Runtime → AuthorityContext → CommandType → Command → Snapshot → Result Reduction
reducer rt ctx CommandType.acknowledge_result c s = Results.acknowledge_result rt ctx c s
reducer rt ctx CommandType.advance_goal c s = Review.advance_goal rt ctx c s
reducer rt ctx CommandType.begin_effect_delivery c s = Delivery.begin_delivery rt ctx c s
reducer rt ctx CommandType.bind_host_resource c s = Effects.bind_host_resource rt ctx c s
reducer rt ctx CommandType.close_execution c s = Closure.close_execution rt ctx c s
reducer rt ctx CommandType.pause_loop c s = Lifecycle.pause_loop rt ctx c s
reducer rt ctx CommandType.prepare_finalization c s = Closure.prepare_finalization rt ctx c s
reducer rt ctx CommandType.prepare_route c s = Delivery.prepare_route rt ctx c s
reducer rt ctx CommandType.record_effect_observation c s = Delivery.observe_delivery rt ctx c s
reducer rt ctx CommandType.record_external_effect_observation c s =
    Effects.observe_external_effect rt ctx c s
reducer rt ctx CommandType.record_policy_decision c s = Repair.record_policy_decision rt ctx c s
reducer rt ctx CommandType.record_review c s = Review.record_review rt ctx c s
reducer rt ctx CommandType.resume_loop c s = Lifecycle.resume_loop rt ctx c s
reducer rt ctx CommandType.revise_goal_plan c s = Roadmap.revise_goal_plan rt ctx c s
reducer rt ctx CommandType.stop_loop c s = Lifecycle.stop_loop rt ctx c s
reducer rt ctx CommandType.stage_external_result c s = Results.stage_external_result rt ctx c s
reducer rt ctx CommandType.stage_result c s = Results.stage_result rt ctx c s
reducer rt ctx CommandType.strengthen_closure_assurance c s =
    Closure.strengthen_closure_assurance rt ctx c s
reducer rt ctx CommandType.create_loop c s = Startup.create_loop rt ctx c (some s)
reducer rt ctx (CommandType.undeclared name) c s = err (rejection invalid_command)

-- a loop that does not exist can only be created
pub create_or_reject : Runtime → AuthorityContext → CommandType → Command → Result Reduction
create_or_reject rt ctx CommandType.create_loop c = Startup.create_loop rt ctx c none
create_or_reject rt ctx _ c = err (rejection invalid_transition)

unfoldable pub dispatch : Runtime → AuthorityContext → Command → Option Snapshot → Result Reduction
dispatch rt ctx c none = create_or_reject rt ctx c.command_type c
dispatch rt ctx c (some s) = reducer rt ctx c.command_type c s

-- `snapshot is None and command_type != "CreateLoop"`
missing_loop : CommandType → Option Snapshot → Bool
missing_loop CommandType.create_loop s = false
missing_loop _ none = true
missing_loop _ (some s) = false

unfoldable pub reduce_command :
    Runtime → AuthorityContext → Command → Option Snapshot → Result Reduction
unfolding dispatch missing_loop
reduce_command rt ctx c s = do
  validate_command rt c
  validate_authority rt ctx c s
  raise_if (missing_loop c.command_type s) invalid_transition
  validate_references s c
  r ← dispatch rt ctx c s
  raise_if (ltb max_events_per_command (length r.events)) resource_limit_exceeded
  ok (record r { snapshot = record (r.snapshot) { loop_revision = c.expected_loop_revision + 1 } })
