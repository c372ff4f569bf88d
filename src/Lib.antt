-- ===== src/Lib.antt =====
-- The job queue, the detection engine and the triage decisions of the SOC triage assistant.
--
-- A client uploads a log file. `submit_file` (agent/application/background_service.py) stages it
-- (agent/application/staging.py), derives its key (agent/application/idempotency.py) and inserts a
-- row of `ingestion_jobs`. A worker (agent/workers/analysis_worker.py) claims the row, runs the
-- analysis and completes, retries or fails the job; a client may cancel it meanwhile
-- (agent/application/cancellation.py), and leases that expire are recovered. The analysis runs the
-- detection engine (agent/detection/engine.py), whose rules turn events into signals that must keep
-- a contract (agent/detection/contracts.py). Incidents are then routed (agent/triage/routing.py),
-- and the claims of a verdict are checked against validated evidence (agent/triage/claims.py).
--
-- Jobs: Model holds the rows (agent/persistence/orm_models.py) and settings (agent/config.py),
-- Table the queries and the directory of staged files. Staging, Submission, Worker, Recovery and
-- Cancellation have one function per step of the source files above: a transaction is one function
-- on the store, and what other processes commit between two transactions enters as a function on
-- the store (`Surroundings`, `Meanwhile`). `Worker.finish_run` joins `_complete_job`
-- (agent/application/analysis_service.py) with the handlers of `process_job`, and
-- `mark_analysis_failed` is what `analyze_file` writes when its persistence fails. What a
-- submission or a recovery has read it writes at its commit, with other processes in between.
-- Activity nests all of these in any order; the read and the commit of the failure handler are one
-- step of it, and the synchronous path of `analyze_file` (a call with an idempotency key and
-- without a job) is no part of it. The other files hold proofs: Rows, RowRules, RecoveryRules and
-- SubmissionRules about the table, Invariant and Uniqueness about what stays true of it,
-- Cancelling, Racing, Outcomes, Retrying, Uploads and Reuse about single operations.
--
-- Detection: Model holds events and signals (agent/schema.py, agent/detection/models.py), Contracts
-- `select_rule_events` and `validate_signal_contract`, Engine the steps of
-- `DetectionEngine.analyze` up to the rule loop, TcpFlags agent/tcp_flags.py, EventFacts the
-- predicates of agent/detection/detectors/scan_helpers.py, Related
-- agent/detection/context_matching.py. Suppression is agent/detection/suppression.py with its step
-- of the engine. Precedence, Clusters and Attached are agent/detection/incident_correlation.py: the
-- order of signals, their clusters with the dictionary of members, and the evidence and context of
-- an incident. Accounting, Grounding, Symmetry, Silence, Sharing, Groups, Absorbing, Partition and
-- Attaching hold proofs: Groups is a list of anchors with what they absorbed, which the
-- dictionaries of `cluster_signals` represent.
--
-- Scoring and Rating are agent/detection/scoring.py: the facts of an incident's events, their way
-- through the metrics, and severity and confidence; Severities holds their proofs. Bundles is
-- `IncidentBundle` with what merges share, Titles the title's source and the primary entity,
-- Merging `merge_overlapping_incidents`, with Merged and MergeRuns as its proofs. Building is
-- `build_correlated_incidents`, which joins clusters, incidents and their merge; Confidences,
-- Covering and Incidents are its proofs. Repeats is `_deduplicate_signals` and Results the end of
-- `analyze` in agent/detection/engine.py, with Repeated and Reported as their proofs. Analysis is
-- `analyze` as a whole, which Analyzed proves from the theorems on its steps.
--
-- Correlation is agent/correlation/merge.py, the merge of incidents of different jobs: Evidence
-- `_merge_evidence`, Bundling `merge_incident_bundles` on the bundles, facts and severity of
-- Detection; Slots, Starving and Bundled hold proofs.
--
-- Security: Authorization and OidcRoles are agent/security/authorization.py and
-- agent/security/oidc_roles.py, which Privileges joins; RateLimiting is the in-memory limiter of
-- agent/security/rate_limiting.py, RateLimits its specification and refinement, Granted what a
-- window lets through. Persistence: Outbox is `claim_batch` of
-- agent/persistence/outbox_repository.py, Leases and Exclusive its proofs.
--
-- Triage: Routing `decide_route`, Routes its proofs, Claims `validate_claims`, Breaker the circuit
-- breaker (agent/triage/circuit_breaker.py), Lifecycle `IncidentLifecycle.transition`
-- (agent/persistence/lifecycle.py), Retries `with_retry` (agent/triage/retry.py) with its proofs in
-- Attempts, Cache the in-memory cache (agent/triage/cache.py).
--
-- Times are numbers of microseconds (in Cache of seconds), confidences of millionths, and the
-- confidence of an incident is a fraction of these; Python's integers have no bound, so numbers
-- have none here. All loops are over finite lists, except the `while True` of `with_retry`, which
-- runs on `max_retries + 1` calls as fuel; that this is enough is a theorem. Digests, random ids,
-- Python's text methods, `ipaddress`, the rules' own code, the analysis and the dispatcher are
-- parameters.
--
-- Not modelled: the parsers, the HTTP handlers, checks of tokens and keys, the model providers and
-- their prompts, the Redis limiter, the search index and the enqueueing of its documents,
-- archiving, retention and migrations, heartbeats and log lines, and the stateful correlation
-- around the merge.
pub mod Prelude
pub mod Jobs
pub mod Detection
pub mod Triage
pub mod Security
pub mod Persistence
pub mod Correlation
