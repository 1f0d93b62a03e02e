-- ===== src/Lib.antt =====
-- LoopSkill, the deterministic v4 runtime: a verification of its protocol, kernel,
-- stores, plan codec and policy.
--
-- The program. A loop is a snapshot that only commands change. A command is validated
-- (`validate_command` of codex-loop-prompt-architect/scripts/loop_architect/v4_alpha/protocol.py),
-- authorized and checked against the snapshot (`validate_authority`, `validate_references` of
-- v4_alpha/kernel.py), and then the reducer of its type gives the next snapshot, the events and the
-- response (`reduce_command`). The store (`InMemoryStore` of v4_alpha/store.py) commits the three
-- together with the record of the operation, answers a repeated operation from that record, and
-- has three boundaries at which a crash can be injected.
--
-- The files.
--   Prelude          Boolean tests, texts, lists, ℤ and dictionaries as Python has them
--   Protocol         errors as values (Outcome), JSON values (Value), the dataclasses (Envelope),
--                    derived references (Derive), the validation of commands (Validate)
--   Kernel/State     the records of a snapshot
--   Kernel/Receipts  `_receipt`; Receipts/Sound proves what it tests
--   Kernel/Subject   references and their revisions, the chain behind a result, `policy_context`
--   Kernel/Authority `validate_authority` and `_validate_plan_selector`
--   Kernel/Startup   `_create_loop` and its startup effect
--   Kernel/Effects, Delivery, Results, Review, Roadmap, Repair, Lifecycle, Closure
--                    the other reducers, each named as in kernel.py without the underscore
--   Kernel/Reduce    `reduce_command`; Reduce/Honest proves its invariant over all reducers
--   Store            `InMemoryStore`: `apply` in the steps `with_digest`, `known`, `fresh`,
--                    `prepare`, `finish` and `commit`; Replay, Refusal, Atomic, Cas, Integrity,
--                    Blobs and Honest prove its properties
--   Sqlite           `SQLiteStore` of v4_persistence/sqlite_store.py: the tables and the statements on
--                    them (Database), `_attempt_wire` (Wire), `_sync_outbox` and the claim (Outbox),
--                    `_sync_loop_identity` and `_sync_receipts` (Identity), the statements of `apply`
--                    (Write), its transaction and its `except` clauses (Apply), `claim_attempt`,
--                    `put_blob` and sequences of calls (Calls); Keeps, Returns and Extends are the
--                    rules that Claims, Atomic, Refines and Wedged prove its properties with
--   Plan             v4_alpha/plan_codec.py: the checks of values (Checks), canonical documents
--                    (Document), their parts (Parts), `canonicalize_plan` (Canonicalize), the index of
--                    a plan (Index) and `materialize_provider_request` (Request)
--   Policy           queues, repairs and the next action of v4_policy/policy.py; Decision has its
--                    decision cards and Roadmap its Adaptive roadmap
--   Examples         concrete data and the theorems at it
--
-- The model. Code that raises returns a `Result`: `rejection` is ProtocolRejection with its code
-- (not the text of its detail), `key_error` and `value_error` are the exceptions that the store
-- does not record, `injected_crash` is InjectedCrash. A reducer changes a copy of the snapshot, so
-- it is a function from a snapshot to a `Reduction`. Snapshots are records of the
-- CONTENT_ADDRESSED_V1 storage mode, which every CreateLoop makes: a key that only some entries have
-- is an Option, and a text that names a state is a constructor. Dictionaries are association lists
-- in insertion order. Revisions are natural numbers, payload integers are ℤ with the source's int64
-- test, and a time is a number of microseconds with a mark that it has a time zone; a comparison of
-- times that differ in the mark raises. All recursion is structural, on lists and on JSON values, so
-- there is no fuel.
--
-- The durable store. A table with a text key is a dictionary, the others are lists of rows; a column
-- of canonical JSON holds the value that it encodes. A transaction works on a copy of the database,
-- which a commit makes durable. `Connection` keeps the copy of a transaction that is open, and
-- `locked` says that another connection holds the write lock. An INSERT fails where its primary
-- key or the UNIQUE key of the outbox is taken. Foreign keys hold by the order of the statements.
--
-- Plans. `canonicalize_plan` reads a JSON value, whose objects have each key once, and returns a
-- `Plan`, whose extension the schema loopskill-plan-v2 adds; `plan_value` is the JSON value of such a
-- plan again. A call that raises PlanCodecError returns none, whatever its code. The durable store is
-- not tied to this model: its host keeps the codec as functions on bytes.
--
-- The parameters. `Runtime` holds SHA-256 over a domain and a value, the size of the canonical
-- bytes, and `datetime.fromisoformat`, and `Unicode` holds NFC normalization and `upper`; `apply` of
-- the store takes the digest of a snapshot and of a blob as arguments, and `verify_integrity` the
-- JSON value that a snapshot is. The durable store takes a `Host`: these, its authority, what
-- `canonical_bytes` refuses, and v4_alpha/plan_codec.py on bytes, whose calls decode, find invalid or
-- refuse (`Codec`). No theorem assumes that a digest is free of collisions.
--
-- Not modelled: the eager plans of 4.0 snapshots, the adapters, the entry service, the file, the
-- schema migrations, the reads and the export of the SQLite store, the parsing and the compilation
-- of plans, the artifacts, the projections, the role requirements of the policy, and the scripts;
-- they are I/O, or come after this core. `int` is modelled for ASCII digits.
pub mod Prelude
pub mod Protocol
pub mod Kernel
pub mod Store
pub mod Plan
pub mod Policy
pub mod Sqlite
pub mod Examples
