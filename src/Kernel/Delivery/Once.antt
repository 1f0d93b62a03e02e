-- ===== src/Kernel/Delivery/Once.antt =====
-- A delivery has one automatic attempt, for as long as no PrepareRoute allocates the delivery again.
use loop_skill.Prelude.{String, arith, eq_refl, lookup-insert, refl, some, ◌∙◌, ◌≡◌}
use loop_skill.Protocol.Outcome.{attempt_already_consumed, err, ok, rejection}
use loop_skill.Protocol.Envelope.{AuthorityContext, Command, Runtime}
use loop_skill.Kernel.State.{Reduction, Snapshot}
use loop_skill.Kernel.Reduce.{reduce_command}
use loop_skill.Kernel.Delivery.{begin_delivery, commit_delivery}
use loop_skill.Kernel.Delivery.Consumed.{
  IsConsumed, IsReallocated, begun, reduce_command-IsConsumed,
}

-- the snapshots of a loop after accepted commands, none of which allocates the delivery again
pub data Later (rt : Runtime) (ref : String) : Snapshot → Snapshot → Type 0 where
  now : (s : Snapshot) → Later rt ref s s
  next :
      (ctx : AuthorityContext) (c : Command) (s t : Snapshot) (r : Reduction)
      → reduce_command rt ctx c (some s) ≡ ok r
      → ¬ IsReallocated ref c
      → Later rt ref r.snapshot t
      → Later rt ref s t

Later-IsConsumed :
    (rt : Runtime) (ref : String) (s t : Snapshot)
    → Later rt ref s t
    → IsConsumed ref s
    → IsConsumed ref t
Later-IsConsumed rt ref s _ (Later.now _) old = old
Later-IsConsumed rt ref s t (Later.next ctx c _ _ r h other more) old =
    Later-IsConsumed rt ref r.snapshot t more
      (reduce_command-IsConsumed rt ctx ref c s r h other old)

module _ (rt : Runtime) (ctx : AuthorityContext) where
  stored :
      (c : Command) (s : Snapshot) (r : Reduction)
      → begin_delivery rt ctx c s ≡ ok r
      → IsConsumed c.subject.subject_ref r.snapshot
  unfolding commit_delivery
  stored c s r h =
      let (d, _, attempt_ref, _, e) = begun rt ctx c s r h in
      (
        commit_delivery d attempt_ref,
        rw e (
            lookup-insert c.subject.subject_ref c.subject.subject_ref
              (commit_delivery d attempt_ref) s.deliveries
            ∙ simp eq_refl),
        refl,
      )

  consumed :
      (c : Command) (s : Snapshot)
      → IsConsumed c.subject.subject_ref s
      → begin_delivery rt ctx c s ≡ err (rejection attempt_already_consumed)
  unfolding begin_delivery
  consumed c s (d, found, spent) = rw found (rw spent (ground arith))

-- After an automatic attempt of a delivery, and after any sequence of accepted commands none of
-- which is a PrepareRoute that allocates the delivery again, a command to begin an attempt of the
-- delivery is rejected as ATTEMPT_ALREADY_CONSUMED.
pub begin_delivery-begin_delivery :
    (rt : Runtime) (ctx other : AuthorityContext) (c d : Command) (s t : Snapshot) (r : Reduction)
    → begin_delivery rt ctx c s ≡ ok r
    → Later rt c.subject.subject_ref r.snapshot t
    → d.subject.subject_ref ≡ c.subject.subject_ref
    → begin_delivery rt other d t ≡ err (rejection attempt_already_consumed)
begin_delivery-begin_delivery rt ctx other c d s t r h more same =
    consumed rt other d t (
      rw same (Later-IsConsumed rt c.subject.subject_ref r.snapshot t more (stored rt ctx c s r h)))
