-- ===== src/Lib.antt =====
-- The runtime of EDGE IQ: worker selections, dispatch decisions, work claims and execution leases.
--
-- The runtime packages (app/runtime/*) record authoritative events. A request names retained evidence
-- by identity and digest; the service reads the evidence from its sources, replays the lineage's
-- history into a derived state, lets a registered policy decide which event the request becomes,
-- builds the event with its canonical digests, and appends it to an in-memory repository that checks
-- the expected version and the idempotency identity. Replay trusts nothing that it can rebuild.
--
-- Parts:
--   Base       names, lists, options, results and dictionaries that all parts share.
--   Platform   what the packages have in common: datetimes and documents (Values), canonical.py
--              (Canonical), the checks of every domain.py (Checks, Reference), the evidence sources of
--              every evidence.py (Evidence). Plain is an interpreter for runs of the model.
--   Dispatch   app/runtime/dispatch_decision: Domain (domain.py, ports.py), Evidence (evidence.py),
--              Policy (policy.py), Serialization (serialization.py), and of service.py: Repository
--              (InMemoryDispatchDecisionRepository), Resolve (_resolve), Service (evaluate, get,
--              history, current, reconstruct). System interleaves threads.
--   Claim      app/runtime/work_claim: Domain (domain.py, ports.py), Evidence (evidence.py), Policy
--              (policy.py), Serialization (serialization.py), and of service.py: Repository
--              (InMemoryWorkClaimRepository), State (_advance_state), Replay (_resolve, _replay, the
--              middle of evaluate), Service (evaluate, get, history, current, reconstruct). System
--              interleaves threads at the calls that take the repository's or a source's lock.
--   Lease      app/runtime/execution_lease: Domain (domain.py, ports.py), Policy (policy.py), Evidence
--              (evidence.py), Serialization (serialization.py), and of service.py: State
--              (_advance_state, _decision) and Resolve (_resolve).
--   Selection  app/runtime/worker_selection: Domain (domain.py, ports.py), Serialization
--              (serialization.py), Policy (policy.py), Evaluator (evaluator.py), and of service.py:
--              History (InMemoryWorkerSelectionHistory) and Service (WorkerSelectionService). The
--              evaluator reads no state, so a call of evaluate acts on the history in one step.
--
-- Correspondence: a dataclass is a record with the same fields, and its `__post_init__` is a function
-- from the arguments to the stored fields (work_claim_request, execution_lease_event, ...). An
-- exception is an `err` of the package's error type, checks in the order of the source. A dictionary
-- is a function to Option; the repository's immutable mappings are the record RepositoryState, and
-- an operation that changes state returns the new one. `evaluate_through` is evaluate with the
-- repository as each of its three calls finds it; `evaluate` is the case without interleaving.
-- Loops are recursion on the list that they run through, so no fuel is used.
--
-- Parameters: unicodedata, isoformat, json.dumps, UTF-8 and hashlib are the record Interpreter. Of
-- them the theorems use that a digest consists of lowercase hexadecimal digits and that normalization
-- keeps ASCII text (Platform.Laws). The clock is the argument `now` of evaluate.
-- Of Selection, Decimal(), UUID(), format(·, ".6f") and the ISO text with microseconds are the record
-- Formats: an instance of its own, of which no theorem needs a law. Scores are natural numbers of
-- millionths, which is what their texts of six places say.
--
-- An aware datetime is its instant in microseconds, ordered by it; adding seconds past the year 9999
-- is the error `overflow`. Versions, generations and fences are naturals, as Python's integers are
-- unbounded; negative ones, which the constructors reject, are not represented, nor are arguments
-- of another type than the annotations. Object identity of the event that append returns is read as:
-- the idempotency key was unused. Publication in memory cannot fail, so the persistence failure is
-- never raised.
--
-- Not modelled: the repository, replay and service of leases; execution plans and execution
-- requests; odds, bankroll and recommendation services (floating point); ingestion, persistence, HTTP interface,
-- providers and research (calls of libraries).
pub mod Base
pub mod Platform
pub mod Dispatch
pub mod Claim
pub mod Lease
pub mod Selection
