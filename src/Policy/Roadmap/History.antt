-- ===== src/Policy/Roadmap/History.antt =====
-- What a sequence of Adaptive roadmaps, each built on the one before, keeps.
use loop_skill.Protocol.Envelope.{Runtime}
use loop_skill.Prelude.{List, String, [], lookup, some, ◌∷◌, ◌≡◌}
use loop_skill.Policy.{GoalSpec, PolicyEnvelope}
use loop_skill.Policy.Roadmap.{AdaptiveRoadmap, build_adaptive_roadmap, definitions}

-- each roadmap of the list is built on the one before
pub data Succession (rt : Runtime) (envelope : PolicyEnvelope)
    : AdaptiveRoadmap → List AdaptiveRoadmap → Type 0 where
  start : (previous : AdaptiveRoadmap) → Succession rt envelope previous []
  revise :
      (previous next : AdaptiveRoadmap) (later : List AdaptiveRoadmap)
      → build_adaptive_roadmap rt next.goals envelope next.revision next.active_goal_id
          (some previous)
        ≡ some next
      → Succession rt envelope next later
      → Succession rt envelope previous (next ∷ later)

-- the last of a roadmap and the later ones
abbrev pub last_of : AdaptiveRoadmap → List AdaptiveRoadmap → AdaptiveRoadmap
last_of roadmap [] = roadmap
last_of roadmap (next ∷ later) = last_of next later

-- a Goal is defined in each roadmap
abbrev pub AllDefine : String → List AdaptiveRoadmap → Type 0
AllDefine goal_id [] = Unit
AllDefine goal_id (r ∷ later) =
    ((g : GoalSpec) × (lookup goal_id (definitions r.goals) ≡ some g)) × AllDefine goal_id later
