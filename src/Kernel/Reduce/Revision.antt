-- ===== src/Kernel/Reduce/Revision.antt =====
-- The revision and the number of events of a reduction.
use loop_skill.Kernel.Reduce.{max_events_per_command, reduce_command}
use loop_skill.Protocol.Outcome.{ok}
use loop_skill.Protocol.Envelope.{AuthorityContext, Command, Runtime}
use loop_skill.Prelude.{arith, leb→le, Option, length, ◌+◌, ◌≡◌, ◌≤◌}
use loop_skill.Kernel.State.{Reduction, Snapshot}

module _ (rt : Runtime) (ctx : AuthorityContext) (c : Command) where
  -- A command that `reduce_command` accepts moves the loop to the revision after the one that it
  -- expects, with at most sixteen events.
  pub reduce_command_revision :
      (s : Option Snapshot) (r : Reduction)
      → reduce_command rt ctx c s ≡ ok r
      → (r.snapshot.loop_revision ≡ c.expected_loop_revision + 1)
        × (length r.events ≤ max_events_per_command)
  unfolding reduce_command
  reduce_command_revision s r h = ground (arith, leb→le (length r.events) max_events_per_command)
