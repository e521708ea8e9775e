-- ===== src/Lib.antt =====
-- SessionPressure: local admission of heavy work on one host, for many concurrent agents.
--
-- The program keeps one weighted ledger in a file under a lock (sessionpressure/worklease.go). A
-- process that wants to run heavy work acquires a lease there, or queues as a waiter and attempts
-- to acquire until a selector picks it; the charged weights of the leases stay within a capacity
-- that the policy sets (sessionpressure/policy.go). An operator can pin waiters
-- (sessionpressure/workoverride.go). Before a lease the process passes an admission gate, which
-- holds it while the host is red (sessionpressure/workadmissionhold.go,
-- sessionpressure/workfastlane.go), and the resident process derates the capacity while memory
-- thrashes (sessionpressure/swap_io.go, sessionpressure/workderating.go). A wrapper parks the
-- lease of a group that is idle (sessionpressure/workidle.go). Levels of pressure come from
-- samples of the host (sessionpressure/types.go), and decide on launches of agents too
-- (sessionpressure/admission.go). Every change of an operation leaves an audit row, which later
-- readers check (sessionpressure/workevent.go) and replay under other selections
-- (sessionpressure/workreplay.go). Beside the ledger stands a bounded cache of build outputs
-- (sessionpressure/gocachelru/lru.go).
--
-- Which file models what:
--
--   Common            the shared names, Boolean tests, lists measured by native numbers, membership,
--                     sorting and signed integers.
--   Limits            sessionpressure/policy.go: WorkLimits, defaultWorkLimits, normalizeWorkLimits,
--                     reconcileFastLaneDefaults; Weight of sessionpressure/worklease.go.
--   Limits/Checks     the checks on limits of Policy.Validate and WorkCoordinator.validate.
--   Limits/Defaults, Limits/Normal
--                     proofs on the defaults and on normalized limits.
--   Ledger            the records of the document: leases, waiters, holds, the latch, the state.
--   Ledger/Select     selectWorkWaiter, selectFIFOWorkWaiter and what they call; the override
--                     selector. Select/Safety and Select/Order hold the proofs.
--   Ledger/Override   advanceWorkOverride and workOverridePositions; proofs in Override/Pins.
--   Ledger/Operations the mutations of AcquireOperationWithCapacity, RegisterWaiter,
--                     TryAcquireWithCapacity, Cancel and Release.
--   Ledger/Ownership  the mutations of SetParked, BindPID, ReserveForPressure, DropLease,
--                     HoldAdmission and ReleaseAdmission.
--   Ledger/Latching   ObserveAdmissionLatch; proofs in Latching/Counting.
--   Ledger/Conservation, Ledger/Bypasses, Ledger/Ceiling
--                     proofs on what the mutations keep and on the ceiling.
--   Ledger/Document   readState and writeState with the schemas 1 to 8; proofs in its child.
--   Ledger/Reconcile  reconcile and reconcileAdmissionHolds; proofs in Reconcile/Rounds,
--                     Reconcile/Soundness, Reconcile/Owners, Reconcile/Premature and
--                     Reconcile/Identities.
--   Ledger/Transaction
--                     withState: read, reconcile, mutate and write, as one access; proofs in its child.
--   Ledger/Requests   overrideWaiters, its callers and ClearWaiterOverride; proofs in
--                     Requests/Sequence, Requests/Priority and Requests/Durable.
--   Ledger/Results    lemmas on chains of checks.
--   Ledger/Runs       the mutations of withState as steps, and runs of them with reconciliations
--                     between; proofs in Runs/Kept, Runs/Handover. The
--                     abstract view of phases is in Runs/Phases, the refinement in Runs/Moves,
--                     Runs/Admissions, Runs/Departures and Runs/Refinement.
--   SwapThrash        swapThrashLatch of sessionpressure/swap_io.go: the records, observe and resume;
--                     SwapThrash/Advance the attribution and the transitions; proofs in
--                     SwapThrash/Verdict and SwapThrash/Episodes.
--   Gate              the swap and warning derates of sessionpressure/workderating.go and
--                     uncorroboratedCPURed of sessionpressure/workrun.go; proofs in Gate/Derating.
--   FastLane          evaluateFastLane of sessionpressure/workfastlane.go; proofs in its child.
--   Idle              workIdleDetector and one round of workIdleParking of
--                     sessionpressure/workidle.go; proofs in Idle/Charge and Idle/Verdict.
--   Events            WorkEvent of sessionpressure/workevent.go and its Validate.
--   Events/Lifecycle  workEventLifecycleValidator: one row of one operation.
--   Events/Readers    validateWorkEventLifecycle, partitionWorkEventLifecycle and
--                     normalizeLateReconciliationTerminals. Proofs: Events/Independence on the
--                     partition; Events/Rows, Events/Types, Events/Stages, Events/Places,
--                     Events/Advances, Events/Endings and Events/Regular on the stages of an
--                     operation; Events/Corrections on late outcomes.
--   Replay            one pass of the inner loop of replayPolicy of sessionpressure/workreplay.go.
--   Replay/Loop       its outer loop; Replay/Trace the jobs that ReplayWorkEvents takes from a
--                     history, and its gates. Proofs: Replay/Frames and Replay/Accounts on a round,
--                     Replay/Clock and Replay/Progress on the end of the loops, Replay/Fits and
--                     Replay/Gates on the capacity and the passes, Replay/Completion on the service of
--                     every job, Replay/Comparison on whole histories.
--   Waits             the waits by cause of summarizeWaitAttribution of
--                     sessionpressure/workwaitattribution.go; Waits/LongWaits its bursts. Proofs in
--                     Waits/Shares and Waits/Bursts.
--   Pressure          evaluate and EvaluateStorage of sessionpressure/types.go and
--                     AgentLaunchAdmissionForQueue of sessionpressure/admission.go; proofs in
--                     Pressure/Levels, Pressure/Storage and Pressure/Launching.
--   GoCache           the cache of sessionpressure/gocachelru/lru.go; proofs in its child.
--   Tests             concrete inputs and the theorems at them.
--
-- How the source is read. A mutation is a function from the document to a document and a result, as
-- the function that the source hands to withState; the file lock makes it one step. An error keeps
-- the document that the source would have written. Times are numbers of nanoseconds with 0 for the
-- zero time; identities and owner tokens are numbers; percentages, rates and sizes of floating point
-- are numbers of thousandths, with the comparisons of the source; ints are natural numbers but for
-- the two settings whose negative values mean something and the fields of audit rows, which a decoder
-- may find negative, and sums of them do not wrap at 2^63. sort.Slice is a stable insertion sort.
-- Loops over a list are structural recursion. The two loops of a replay run on fuel: the inner one on
-- the length of the queue, which each round shortens, the outer one on three passes for each job, which
-- Replay.Progress shows to be enough.
-- runtime.NumCPU, the process id, the clock, process identities, the random identity, the green
-- window and whether an audit record was written are parameters.
--
-- A document is the fields that the decoder gives; the JSON text is not modelled, and neither is the
-- failure to take the lock, which leaves the file as it is. That a process lives, that an expired
-- operation is recorded and that the file can be written are parameters.
--
-- Not modelled: the status view, the rest of the admission gate, the store of audit rows and their
-- summaries, the cost of the swap derate, the classifier of commands, batches, sampling of the host,
-- telemetry, commands and user interfaces. Work classes outside the known ones are not represented.
pub mod Gate
pub mod Idle
pub mod GoCache
pub mod Tests
pub mod SwapThrash
pub mod Events
pub mod Replay
pub mod Waits
pub mod Pressure
pub mod FastLane
pub mod Common
pub mod Limits
pub mod Ledger
