-- ===== src/Lib.antt =====
-- The host of Python plugins, crates/cpex-hosts-python. A policy engine (PPE, the third-party crate
-- praxis-policy-core) dispatches hooks; this host serializes a hook's payload and extensions into a
-- task, writes the task as a line of JSON to a worker process, and turns the answer into the
-- engine's types again. Credentials travel in a field of their own that only declared plugins get.
--
-- Parts and files:
-- - Hooks: the hook table of conversion.rs. `payload_kind_for_hook`, `worker_hook_name` and
--   `is_credential_hook` look a dispatched name up in `hook_routes`.
-- - CredentialPayloads: credential_payloads.rs. The header rules, the check of an answer's keys and
--   `parse_lossless` are in the file itself; the payloads of `identity.resolve` and
--   `token.delegate` are in Identity and Delegation, with a function to the worker and one back.
-- - Credentials: credentials.rs. The credential object and the choice of an inbound token; Delegated
--   has the choice of a delegated token, Attach the capability gate, Redaction what is printed.
-- - Extensions: extensions.rs. `attach_extensions` writes the visible slots into a task, and
--   `owned_from_returned_slot` takes those that an answer may change.
-- - Worker: worker.rs. A `Channel` is the table of pending requests, the flag `alive` and the fate of
--   the senders that left the table; `read_frame` is a turn of the reader task. `Run` is the relation
--   of sends, timeouts and frames in any order, so that it holds the races of the tasks.
--   Lines has the bounded reader, on the bytes of each fill of the buffer.
-- - HostError, Result: error.rs, and Rust's `Result` with that error.
-- - Conversion: the rest of conversion.rs, a payload's JSON and `response_to_result`.
-- - Venv: venv.rs. The layout and `evaluate_cache` are in the file itself; FileSystem is the part of
--   `std::fs` that it uses, on a `Disk` that is passed on, with `Frame` for the files that an action
--   leaves as they were; Tools has the manager's fields and the commands; Manager is `VenvManager`, with
--   `ensure` as the chain of its steps.
-- - Legacy: legacy/cmf_shim.rs. The table of hooks is in the file itself, its tests of a part in Parts,
--   `to_legacy` in Translate and `apply_modified` in Translate/Answer; Payloads is legacy/payloads.rs, and
--   Cmf the message.
-- - Plugin: plugin.rs. What a declaration asks of a worker is in the file itself. Launch has what
--   `launch_worker` does before the spawn, Task has `build_task` and the part of `invoke` up to
--   `send_task`, Response the part behind it; Respawn is the budget of respawns, and Lifecycle the
--   relation of the steps that `respawn_worker` and `shutdown` take on the worker's slot.
-- - Ppe, Payload, Json: the engine's types that the host reads or builds, the payloads that it
--   downcasts to, and `serde_json::Value`.
-- - Prelude, Text: Boolean tests, lists, association lists, the stable sort, and text functions.
--
-- Every component works on the same tasks: `prepare_task` of Plugin makes a JSON object, to which
-- Attach and Extensions add a field, the worker's transport sends it, and `convert_response` has
-- Conversion, Extensions and CredentialPayloads read the answer.
--
-- Parameters: what serde_json does at the engine's types, the text of its errors, the clock and its
-- addition of seconds, and the engine's copy, chain check and label functions are arguments. Their
-- laws, where a theorem needs them, are the record `IsCore`. A `HashMap` is a list of its entries in
-- the order of iteration, so that a result that depends on this order can be seen. A write token is
-- a Boolean, and a slot that the host never opens is its address with its JSON. In Venv the digest,
-- `python3 -m venv` and pip are arguments, and whether an operation on the disk fails is one too; what
-- the theorems ask of them are the records `Reliable` and `Contained`. An operation that fails leaves
-- the disk as it was, so that nothing is said of a disk behind a failure. Response takes as an argument
-- what the shim makes of a modified payload, as the message that it holds is one that serializes.
-- Launch takes what `read_dir` lists and what `command -v python3` prints. The contents of files are
-- texts, also where the source hashes bytes. In Lifecycle the end of a worker that is waited for or
-- killed succeeds, and `initialize` runs once. The parts of a message have the fields that the shim
-- reads or keeps; what it only keeps is held as what it serializes to.
--
-- Recursion is structural everywhere, but for the decimal text of a number, whose fuel is the number
-- itself plus one. Integers that the source reads with a width, `as_i64` and `as_u64`, are checked
-- against it. Sizes of texts are in bytes, as in the source.
--
-- Not modelled: spawning, pipes and the writer task, which are I/O; logging; the configuration
-- of a plugin, and the second handshake of `invoke`; the factory of the same
-- crate; the C, Python and Go bindings, examples and tests.
pub mod Prelude
pub mod Text
pub mod Json
pub mod HostError
pub mod Result
pub mod Ppe
pub mod Payload
pub mod Hooks
pub mod CredentialPayloads
pub mod Credentials
pub mod Extensions
pub mod Worker
pub mod Conversion
pub mod Venv
pub mod Cmf
pub mod Legacy
pub mod Plugin
