-- ===== src/Plan.antt =====
-- codex-loop-prompt-architect/scripts/loop_architect/v4_alpha/plan_codec.py: plan documents, their
-- index, and the request that a provider is given for a Goal.
pub mod Checks
pub mod Document
pub mod Parts
pub mod Canonicalize
pub mod Index
pub mod Request
