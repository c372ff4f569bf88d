-- ===== src/Jobs/Recovery.antt =====
-- `recover_stale_jobs` of agent/workers/analysis_worker.py.
use agentic_soc_triage_assis.Prelude.{
  if◌then◌else◌, ltb, ◌+◌, ℕ, length, none, false, true, Bool, [], List, ◌∷◌, ◌&&◌, filter, Option,
  leb, some,
}
use agentic_soc_triage_assis.Jobs.Model.{
  Job, JobStatus, queued, processing, cancel_requested, failed, Store, Settings,
}
use agentic_soc_triage_assis.Jobs.Table.{update_where, has_id, remove_file}
use agentic_soc_triage_assis.Jobs.Cancellation.{finalize}
use agentic_soc_triage_assis.Jobs.Worker.{retry_delay}

abbrev pub holds_lease : JobStatus → Bool
holds_lease processing = true
holds_lease cancel_requested = true
holds_lease _ = false

-- `lease_expires_at IS NOT NULL AND lease_expires_at <= now()`.
abbrev pub is_expired : ℕ → Option ℕ → Bool
is_expired now none = false
is_expired now (some t) = leb t now

abbrev pub is_stale : ℕ → Job → Bool
is_stale now j = holds_lease j.status && is_expired now j.lease_expires_at

module _ (settings : Settings) (now : ℕ) where
  abbrev pub may_retry : Job → Bool
  may_retry read = ltb read.attempt_count settings.job_max_attempts

  -- What the commit writes to the row, by the attempts of the row as it was read.
  unfoldable pub requeue_or_fail : (read : Job) → Job → Job
  requeue_or_fail read j =
      if may_retry read
      then record j {
        status = queued;
        worker_id = none;
        lease_expires_at = none;
        next_retry_at = some (now + retry_delay settings read.attempt_count);
      }
      else record j {
        status = failed;
        error_code = some "processing_lease_expired";
        worker_id = none;
        lease_expires_at = none;
      }

  -- One round of the loop: a cancellation is committed on its own, any other row is only changed in
  -- the session, and the file of a job that fails is removed at once.
  unfoldable pub recover_status : JobStatus → (read : Job) → Store → Store
  recover_status cancel_requested read s = (finalize now read.id s).1
  recover_status status read s = if may_retry read then s else remove_file read.id s

  -- What the session holds for the row when it commits.
  unfoldable pub write_recovered : JobStatus → (read : Job) → Store → Store
  write_recovered cancel_requested read s = s
  write_recovered status read s = record s {
    jobs = update_where (has_id read.id) (requeue_or_fail read) s.jobs;
  }

  unfoldable pub commit_recovered : List Job → Store → Store
  commit_recovered [] s = s
  commit_recovered (read ∷ reads) s = commit_recovered reads (write_recovered read.status read s)

  -- The other processes enter before the round of each job and before the commit.
  module _ (before_round : Job → Store → Store) (before_commit : Store → Store) where
    unfoldable pub recover_each : List Job → Store → Store
    recover_each [] s = s
    recover_each (read ∷ reads) s =
        recover_each reads (recover_status read.status read (before_round read s))

    unfoldable pub recover_stale_jobs : Store → ℕ × Store
    recover_stale_jobs s =
        let stale = filter (is_stale now) s.jobs in
        (length stale, commit_recovered stale (before_commit (recover_each stale s)))
