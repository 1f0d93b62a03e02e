-- ===== src/Protocol.antt =====
-- codex-loop-prompt-architect/scripts/loop_architect/v4_alpha/protocol.py and generated_protocol.py:
-- values, errors, the command envelope and its validation, and the identities derived from a plan.
pub mod Outcome
pub mod Partial
pub mod Value
pub mod Envelope
pub mod Derive
pub mod Validate
