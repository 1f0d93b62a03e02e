-- ===== src/Kernel.antt =====
-- codex-loop-prompt-architect/scripts/loop_architect/v4_alpha/kernel.py: the reducer of the runtime.
pub mod State
pub mod Authority
pub mod Receipts
pub mod Subject
pub mod Effects
pub mod Delivery
pub mod Results
pub mod Review
pub mod Repair
pub mod Lifecycle
pub mod Closure
pub mod Startup
pub mod Roadmap
pub mod Reduce
