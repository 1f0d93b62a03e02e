-- ===== src/Protocol/Validate/Digest.antt =====
-- The digest test of `validate_command`.
use loop_skill.Protocol.Outcome.{Result, err, invalid_command, ok, raise_if, ◌>>=◌}
use loop_skill.Protocol.Envelope.{Command, Runtime}
use loop_skill.Prelude.{String, arith, eq_iff, not, ◌==◌, ◌≡◌}
use loop_skill.Protocol.Validate.{validate_command, command_digest}

digest_check :
    (m : Result String) (claimed : String) {u : Unit {0}}
    → (m >>= λ digest. raise_if (not (claimed == digest)) invalid_command) ≡ ok u
    → m ≡ ok claimed
digest_check (ok digest) claimed h = ground (arith, eq_iff claimed digest)
digest_check (err e) claimed h = cc

-- A command that passes `validate_command` carries the digest of its own contents.
pub validate_command-digest :
    (rt : Runtime) (c : Command) {u : Unit {0}}
    → validate_command rt c ≡ ok u
    → command_digest rt c ≡ ok c.request_digest
unfolding validate_command
validate_command-digest rt c h = ground (arith, digest_check (command_digest rt c) c.request_digest)
