-- ===== src/Lib.antt =====
-- Verification library of the sandbox runtime (sandbox-runtime/), the part of the operator that
-- creates, guards, stops and collects sandboxes, and of the escrow watchdog of the instance
-- blueprint (ai-agent-instance-blueprint-lib/).
--
-- The parts and their files:
--   CircuitBreaker   sandbox-runtime/src/circuit_breaker.rs: sandboxes whose sidecar failed refuse
--                    requests for a cooldown, and then let one probe through (`check_health`,
--                    `mark_unhealthy`, `mark_healthy`, `query_status`).
--   RateLimit        sandbox-runtime/src/rate_limit.rs: `RateLimiter` and `SessionRateLimiter` as one
--                    type over its keys (`check`, `check_and_record`), the client's address
--                    (RateLimit/ClientIp) and the middleware over the static limiters
--                    (RateLimit/Layer).
--   SessionAuth      sandbox-runtime/src/session_auth/: challenges, sessions and the blacklist as
--                    three maps, and the calls on them.
--   Scoped           sandbox-runtime/src/scoped_session_auth/: state.rs and `resolve_bearer` of
--                    service.rs, and the calls that issue challenges and sessions
--                    (Scoped/Service), with histories of both (Scoped/History).
--   Sandbox          sandbox-runtime/src/runtime/mod.rs and runtime/backend.rs: the records, the
--                    configuration, the choice of the backend.
--   Admission        sandbox-runtime/src/runtime/admission.rs: what a new sandbox must meet.
--   Lifecycle        sandbox-runtime/src/runtime/lifecycle.rs (stop and delete), snapshots.rs (commit
--                    and image removal) and `unseal_record` of secrets.rs.
--   Gc               sandbox-runtime/src/reaper/gc.rs: the tiers of a stopped sandbox.
--   Reaper           sandbox-runtime/src/reaper/tick.rs: idle and expired sandboxes.
--   Reconcile        sandbox-runtime/src/reaper/reconcile.rs: the records at the operator's start.
--   Provision        sandbox-runtime/src/provision_progress.rs: the progress of a creation.
--   Chat             sandbox-runtime/src/chat_state.rs: the chat sessions (Chat/Sessions), their
--                    messages (Chat/Messages) and runs (Chat/Runs), with the start that interrupts
--                    the runs of an earlier process (`ensure_initialized`); the queue of the runs
--                    in operator_api/ (`enqueue_chat_run`, Chat/Enqueue; `cancel_chat_run`,
--                    Chat/Cancel).
--   Billing          ai-agent-instance-blueprint-lib/src/billing.rs: a check of the escrow and a
--                    tick (`check_escrow`, `tick`), and the task of `spawn_watchdog` over its
--                    events (Billing/Loop).
--   Base             what they share: maps as association lists, errors, the clock, texts.
--
-- State. A static behind a lock is a record, and a call is a function from it to an answer and
-- the next state; a call is one step, so a history of calls is a list. What other threads do
-- between the parts of a call that takes its locks one after another, or none over the whole
-- (`cancel_chat_run`, the calls of Scoped), is left out. Gc, Reaper and Reconcile work on the
-- store of the records, and on the list of calls that they made of Docker, the hypervisor, the
-- TEE backend and the object store (Lifecycle.World); what these answer, and whether a write of
-- the store succeeds, is the argument Lifecycle.Outside. Their loops run over the records that
-- were read at the start. Admission reads the same records before a sandbox is created. An
-- operation of Chat returns the store call that failed, or a value, and the stores after it;
-- Chat.Surroundings says which calls fail. A panic is an answer of its own, and leaves the lock
-- poisoned that the call holds. The task of Billing is a fold over the events that it receives,
-- and keeps the list of what it does on the outside.
--
-- Numbers. Readings of the monotonic clock are nanoseconds and those of the wall clock are
-- seconds, each an argument, one for each time that the code reads it. A sum or product of u64
-- that may wrap is taken modulo 2 ^ 64, and a cast to u32 modulo 2 ^ 32; the product of two U256
-- is taken modulo 2 ^ 256. The expiry of a challenge or a session is the present plus its time
-- to live, and is not wrapped; the times of Scoped, signed in the code, are not negative. No
-- definition needs fuel: all loops run over lists.
--
-- Parameters. The parser of addresses, the JSON reading of a sandbox's metadata, the PASETO
-- library, the recovery of a signer, the sealing of secrets, the random nonces and ids, the
-- environment, and the answers of the chain are arguments.
--
-- Not modelled: the I/O itself, logs, metrics and the texts of errors; the persistent store's
-- file; the creation and the resume of a sandbox; the warm pools; the operator's HTTP API; the
-- TEE backends; the run of a chat once it is queued; the job handlers and workflows of the
-- blueprint libraries; the smart contracts and the user interface.
pub mod Base
pub mod Billing
pub mod Chat
pub mod CircuitBreaker
pub mod Scoped
pub mod RateLimit
pub mod SessionAuth
pub mod Sandbox
pub mod Admission
pub mod Lifecycle
pub mod Gc
pub mod Reaper
pub mod Reconcile
pub mod Provision
