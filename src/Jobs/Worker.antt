-- ===== src/Jobs/Worker.antt =====
-- agent/workers/analysis_worker.py, and the job-level steps of `analyze_file` and `_complete_job` in
-- agent/application/analysis_service.py that a worker's run goes through.
-- The heartbeat rows are left out. What the analysis computes and stores, and what other processes do
-- to the database while it runs, enter as functions (`Meanwhile`).
use agentic_soc_triage_assis.Prelude.{
  not, if◌then◌else◌, ltb, String, ◌+◌, contains, ℕ, none, false, true, Bool, [], List, ◌∷◌, ◌&&◌,
  Option, text_equality, ◌*◌, min, leb, ◌^◌, some,
}
use agentic_soc_triage_assis.Jobs.Model.{
  Job, queued, processing, cancel_requested, completed, failed, Store, Settings, is_queued,
  JobStatus,
}
use agentic_soc_triage_assis.Jobs.Table.{update_where, count_where, get_job, has_id, remove_file}
use agentic_soc_triage_assis.Jobs.Cancellation.{raise_if_cancelled, finalize, is_processing_job}

-- The exceptions that the handler of `process_job` tells apart.
pub data Failure : Type 0 where
  provider_timeout provider_unavailable provider_rate_limited : Failure
  provider_authentication provider_configuration provider_invalid_response : Failure
  retryable_job permanent_job : String → Failure
  other_failure : Failure

abbrev pub is_retryable : Failure → Bool
is_retryable provider_timeout = true
is_retryable provider_unavailable = true
is_retryable provider_rate_limited = true
is_retryable (retryable_job name) = true
is_retryable _ = false

abbrev pub error_code_of : Failure → String
error_code_of provider_timeout = "provider_timeout"
error_code_of provider_unavailable = "provider_unavailable"
error_code_of provider_rate_limited = "provider_rate_limited"
error_code_of provider_authentication = "provider_authentication"
error_code_of provider_configuration = "provider_configuration"
error_code_of provider_invalid_response = "provider_invalid_response"
error_code_of (retryable_job name) = name
error_code_of (permanent_job message) = message
error_code_of other_failure = "worker_execution_failed"

abbrev pub second : ℕ
second = 1_000_000

-- `min(base * 2 ** (attempt_count - 1), max)` seconds, in microseconds: half a second is 500,000 of
-- them, so the factor is exact at `attempt_count == 0` too, where Python computes `2 ** -1`.
unfoldable pub retry_delay : Settings → ℕ → ℕ
retry_delay settings attempt_count =
    min (settings.job_retry_base_seconds * 500_000 * 2 ^ attempt_count)
      (settings.job_retry_max_seconds * second)

-- `next_retry_at IS NULL OR next_retry_at <= now()`.
abbrev pub is_due : ℕ → Option ℕ → Bool
is_due now none = true
is_due now (some t) = leb t now

abbrev pub is_claimable : ℕ → Job → Bool
is_claimable now j = is_queued j.status && is_due now j.next_retry_at

abbrev pub claim_job : Settings → String → ℕ → Job → Job
claim_job settings worker now j = record j {
  status = processing;
  worker_id = some worker;
  started_at = some now;
  last_attempt_at = some now;
  lease_expires_at = some (now + settings.job_processing_lease_seconds * second);
  attempt_count = j.attempt_count + 1;
}

module _ (settings : Settings) (worker : String) (now : ℕ) (job_id : String) where
  abbrev pub claims : Job → Bool
  claims j = has_id job_id j && is_claimable now j

  -- The atomic check-and-set.
  unfoldable pub claim : Store → Store
  claim s = record s { jobs = update_where claims (claim_job settings worker now) s.jobs }

-- `_complete_job`: the final arbiter between completion and cancellation.
abbrev pub complete_job : ℕ → Job → Job
complete_job now j = record j {
  status = completed;
  completed_at = some now;
  lease_expires_at = none;
  next_retry_at = none;
}

unfoldable pub complete : ℕ → String → Store → Store
complete now job_id s = record s {
  jobs = update_where (is_processing_job job_id) (complete_job now) s.jobs;
}

-- What the exception handler writes to the row that it reads back.
unfoldable pub fail_job : Settings → ℕ → Failure → Job → Job
fail_job settings now failure j =
    if is_retryable failure && ltb j.attempt_count settings.job_max_attempts
    then record j {
      status = queued;
      error_code = some (error_code_of failure);
      worker_id = none;
      lease_expires_at = none;
      next_retry_at = some (now + retry_delay settings j.attempt_count);
    }
    else record j {
      status = failed;
      worker_id = none;
      lease_expires_at = none;
      error_code =
          some (if is_retryable failure then "max_attempts_reached" else error_code_of failure);
    }

-- `analyze_file` when its persistence fails: the row is marked by its id, whatever it has become.
abbrev pub mark_failed : (error_code : String) → Job → Job
mark_failed error_code j = record j { status = failed; error_code = some error_code }

unfoldable pub mark_analysis_failed : (error_code job_id : String) → Store → Store
mark_analysis_failed error_code job_id s = record s {
  jobs = update_where (has_id job_id) (mark_failed error_code) s.jobs;
}

pub data RunResult : Type 0 where
  ignored run_cancelled run_completed run_retry run_failed : RunResult

module _ (settings : Settings) (now : ℕ) (job_id : String) (failure : Failure) where
  unfoldable pub record_failure : Store → Store
  record_failure s = record s {
    jobs = update_where (has_id job_id) (fail_job settings now failure) s.jobs;
  }

  -- The whole handler, for the row as it reads it: a terminal failure removes the staged file too.
  unfoldable pub handle_failure_of : Option Job → Store → RunResult × Store
  handle_failure_of none s = (run_failed, s)
  handle_failure_of (some j) s =
      if is_retryable failure && ltb j.attempt_count settings.job_max_attempts
      then (run_retry, record_failure s)
      else (run_failed, remove_file job_id (record_failure s))

  unfoldable pub handle_failure : Store → RunResult × Store
  handle_failure s = handle_failure_of (get_job job_id s.jobs) s

-- How the work between the last checkpoint and the arbiter ends.
pub data WorkOutcome : Type 0 where
  work_done : WorkOutcome
  work_cancelled : WorkOutcome
  work_failed : Failure → WorkOutcome

-- What happens between the transactions of one run: other processes before the first checkpoint, and
-- the analysis together with other processes after it.
pub record Meanwhile : Type 0 where
  pub before_checkpoint : Store → Store
  pub during_analysis : Store → WorkOutcome × Store

module _ (settings : Settings) (now : ℕ) (job_id : String) where
  abbrev cancel_run : Store → RunResult × Store
  cancel_run s = (run_cancelled, (finalize now job_id s).1)

  -- From the arbiter on.
  unfoldable pub finish_run : WorkOutcome → Store → RunResult × Store
  finish_run work_cancelled s = cancel_run s
  finish_run (work_failed failure) s = handle_failure settings now job_id failure s
  finish_run work_done s =
      if ltb 0 (count_where (is_processing_job job_id) s.jobs)
      then (run_completed, remove_file job_id (complete now job_id s))
      else cancel_run s

  -- A claimed job, from its first checkpoint on.
  unfoldable pub run_claimed : (Store → WorkOutcome × Store) → Store → RunResult × Store
  run_claimed during s =
      if raise_if_cancelled job_id s
      then cancel_run s
      else if contains job_id s.staged
      then (let (outcome, s') = during s in finish_run outcome s')
      else handle_failure settings now job_id (permanent_job "staging_file_missing") s

module _ (settings : Settings) (worker : String) (now : ℕ) (job_id : String) (env : Meanwhile) where
  -- By the status that the first query reads.
  unfoldable pub process_status : JobStatus → Store → RunResult × Store
  process_status cancel_requested s = (run_cancelled, (finalize now job_id s).1)
  process_status queued s =
      if ltb 0 (count_where (claims settings worker now job_id) s.jobs)
      then run_claimed settings now job_id env.during_analysis
          (env.before_checkpoint (claim settings worker now job_id s))
      else (ignored, s)
  process_status status s = (ignored, s)

  unfoldable pub process_row : Option Job → Store → RunResult × Store
  process_row none s = (ignored, s)
  process_row (some j) s = process_status j.status s

  unfoldable pub process_job : Store → RunResult × Store
  process_job s = process_row (get_job job_id s.jobs) s

-- `ORDER BY queued_at ASC`: where a NULL stands depends on the database.
abbrev pub precedes : (nulls_first : Bool) → Option ℕ → Option ℕ → Bool
precedes nulls_first none none = false
precedes nulls_first none (some b) = nulls_first
precedes nulls_first (some a) none = not nulls_first
precedes nulls_first (some a) (some b) = ltb a b

abbrev pub earlier : Bool → Job → Option Job → Job
earlier nulls_first j none = j
earlier nulls_first j (some k) = if precedes nulls_first k.queued_at j.queued_at then k else j

-- The first queued job that is due.
unfoldable pub next_job : Bool → ℕ → List Job → Option Job
next_job nulls_first now [] = none
next_job nulls_first now (j ∷ js) =
    let rest = next_job nulls_first now js in
    if is_claimable now j then some (earlier nulls_first j rest) else rest

abbrev pub counts_as_processed : RunResult → Bool
counts_as_processed run_completed = true
counts_as_processed run_failed = true
counts_as_processed run_retry = true
counts_as_processed _ = false

module _ (settings : Settings) (worker : String) (now : ℕ) (env : Meanwhile) where
  unfoldable pub run_next : Option Job → Store → Bool × Store
  run_next none s = (false, s)
  run_next (some j) s =
      let (result, s') = process_job settings worker now j.id env s in
      (counts_as_processed result, s')

  unfoldable pub run_once : Bool → Store → Bool × Store
  run_once nulls_first s = run_next (next_job nulls_first now s.jobs) s
