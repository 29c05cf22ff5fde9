-- ===== src/Lib.antt =====
-- The durable supervisor: the records under `.opsle` by which a supervisor of coding agents
-- survives crashes, and the operations that keep them. Paths are from the root of the
-- repository.
--
-- The program's parts and the files here:
-- * Base, Base/Tests, Base/Lists, Base/Texts, Base/Errors: JavaScript's tests, arrays, texts and
--   exceptions. A function that may throw returns `Result`; the values that a message
--   interpolates are left out.
-- * Wait, Wait/Laws: src/wakeup.js, the wait for a child attempt (`registerWait`,
--   `applyWakeEvent`).
-- * Store, Store/Laws: src/io.js, one shared file (`atomicCompareAndSwapJson`,
--   `atomicCreateJson`). A file is its content, or none, and whether its lock directory exists.
-- * Claims, Claims/Index, Claims/Protocol, Claims/Laws, Claims/Released, Claims/Exclusion:
--   src/pipeline.js, `acquireClaim` and `releaseClaim` on the index of claims. Claims/Protocol
--   is the abstract description, a step relation on indexes apart from files, rounds and
--   digests.
-- * Lifecycle/State, Lifecycle/Repository, Lifecycle/Requirements, Lifecycle/Validity:
--   src/state.js, the records, the effective requirements, the derived next action, and
--   `validateDurableState` in its clauses on the objective, the supervisor and the state.
-- * Lifecycle/Controls, Lifecycle/Recovery: src/cli.js, the commands `pause`, `resume`,
--   `objective set`, `cutover` and `recover`. Lifecycle/Laws and Lifecycle/Recovered hold the
--   commands to the validator.
-- * Routing/Discovery, Routing/Decision, Routing/Laws: src/supervisor-routing.js, the discovery
--   of capabilities, the routes and the decisions.
-- * Handoff/Task, Handoff/Gearbox, Handoff/Attempt, Handoff/Laws, Handoff/Created,
--   Handoff/Numbers: src/pipeline.js, the handoff of a task (`validateHandoff`, `createTask`),
--   its route (`routeTask`), and `createAttempt`, which checks the route, acquires the claim by
--   Claims and records the attempt.
-- * Activation/Lease, Activation/Decision, Activation/Binding, Activation/Delivery:
--   src/wakeup.js, the lease of the process that may activate a supervisor, the decision for one
--   wake, the classification of the queue, and the shape of a session's binding, and the
--   consumption of a delivery. Activation/Transport: `reconcileWakeTransportNotStarted` and
--   `consumeReconciledTransportNotStarted`, for a wake whose transport never started, and
--   src/cli.js `consumeEvent`, which consumes the one or the other. Activation/Fences,
--   Activation/Takeover, Activation/Claimed, Activation/Consumed and Activation/Settled are
--   about them.
-- * Evaluation/Records, Evaluation/Events, Evaluation/Steps, Evaluation/Evaluate: src/cli.js,
--   `evaluateTask`, which commits a decision, and `reconcileEvaluation`, which brings the logs,
--   the attempt, the task, the requirements, the events and the lifecycle state to it.
--   Evaluation/Replay is about steps that may be stopped half-way; Evaluation/EventLaws,
--   RequirementLaws, Accepted, StepLaws, Replayed, Committed and Released are about the
--   evaluation. Evaluation/Projection and Evaluation/Converged: `reconcileJsonProjection`, a
--   projection of a file that other processes write too.
-- * Failure, Failure/Resumed: src/cli.js, `reconcileRunnerFailure`, which commits that a Runner
--   failed and releases its claim by Claims.
-- * Lock, Lock/Exclusion, Lock/Ends, Lock/Takeover: src/host-lock.js, `acquireHostLock`, the
--   retirement of a stale lock and `release`, as accesses to the file system that interleave
--   with those of other processes.
-- * Tests and its children: runs at concrete records.
--
-- How the parts interact: claims, leases, decisions and consumptions are files of Store, and
-- recovery reads the claims and applies an event to the wait of the attempt that it finds lost.
-- A consumption is checked against the decision that the lease's holder has claimed. An
-- evaluation reads the effective requirements and derives the next action of the lifecycle. Its
-- steps take their files as nobody else writes them, as its lock does; a projection under
-- contention is a part of its own.
--
-- Parameters: the digest of a content (`Hash`, which tells contents apart), the digests of whole
-- records (`Digests`), `lstat`, what commands can be run (`Discovery`), whether a process is
-- alive or has an identity (`Machine`), new identities and the clock. What other processes do to
-- a file between the reading of a snapshot and the swap is a function of the round; the laws of
-- claims ask that it keeps to the protocol of the index, the takeover of a lease that the token
-- in its file is never lowered, and the others ask nothing of it, but that a projection that is
-- to return is left alone in one round. The identities of events are a function of decision and
-- type.
--
-- Bounds: the rounds of the claim index are the 256 of the source, those of the lease its two,
-- those of a projection its forty, and those of the host lock its attempts; all end in an error
-- value, as in the source. The digits of the number of an attempt are printed in rounds, one
-- more than the number, which are enough (Handoff/Numbers).
--
-- Not modelled: canonical JSON text and fsync; the binding of a Codex session to a terminal,
-- delivery and its transport, the Runner, the opsled service, reconstruction packets, releases
-- and upgrades, display and telemetry, which are process control, files and text. Digests are
-- taken as one to one, and a field has the type that its writers give it. Fencing tokens and
-- times are natural numbers without a limit. The lease's file and the supervisor are read once
-- for the two fence tests of `claimActivationDecision`, and a handoff without any authorization
-- ends in the error of one without `may_modify`.
pub mod Base
pub mod Wait
pub mod Store
pub mod Claims
pub mod Lifecycle
pub mod Routing
pub mod Handoff
pub mod Activation
pub mod Evaluation
pub mod Lock
pub mod Failure
pub mod Tests
