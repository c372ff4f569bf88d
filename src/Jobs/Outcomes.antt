-- ===== src/Jobs/Outcomes.antt =====
-- Whole stories of one job: cancelled while it runs, claimed by two workers, run to its end.
use agentic_soc_triage_assis.Prelude.{
  ℕ, some, true, refl, ◌≡◌, ◌<◌, ◌∙◌, String, Option, ap, arith, beq_refl, contains, text_equality,
}
use agentic_soc_triage_assis.Jobs.Worker.{
  process_job, process_row, process_status, claim, Meanwhile, is_claimable, finish_run, fail_job,
  ignored, work_done, Failure, run_cancelled, is_retryable, claims, work_failed, claim_job,
  run_retry, run_claimed, run_completed, complete_job,
}
use agentic_soc_triage_assis.Jobs.Model.{
  Store, Job, Settings, processing, is_queued, JobStatus, is_processing, queued,
}
use agentic_soc_triage_assis.Jobs.Rows.{
  UniqueIds, UniqueIds-update_where, get_job-update_where, count_where-row,
}
use agentic_soc_triage_assis.Jobs.Table.{get_job}
use agentic_soc_triage_assis.Jobs.Cancellation.{
  cancel, request_cancellation, cancel_processing, is_processing_job, finalize_job,
  raise_if_cancelled, is_cancel_pending,
}
use agentic_soc_triage_assis.Jobs.Cancelling.{
  jobs-cancel_processing, cancel_lem, cancelled_row, id-get_job,
}
use agentic_soc_triage_assis.Jobs.Racing.{
  finish_run-cancel_requested, finish_run-work_failed, finish_run-processing,
}

module _ (now : ℕ) (actor_type actor : String) (request : Option String) (job_id : String)
    (s : Store) (j : Job) (unique : UniqueIds s.jobs) (found : get_job job_id s.jobs ≡ some j)
    (running : j.status ≡ processing) where
  abbrev after_request : Store
  after_request = (cancel now actor_type actor request job_id s).1

  request-store : after_request ≡ cancel_processing now actor_type actor request job_id s
  unfolding cancel
  request-store = ground (
    arith,
    count_where-row job_id (λ (k : Job). is_queued k.status) s.jobs {j = j} unique found,
    count_where-row job_id (λ (k : Job). is_processing k.status) s.jobs {j = j} unique found,
  )

  request-UniqueIds : UniqueIds after_request.jobs
  request-UniqueIds =
      rw (request-store, jobs-cancel_processing now actor_type actor request job_id s)
        (UniqueIds-update_where (is_processing_job job_id) (request_cancellation now actor)
          (λ k. refl) s.jobs unique)

  request-row : get_job job_id after_request.jobs ≡ some (request_cancellation now actor j)
  request-row =
      (cancel_lem now actor_type actor request job_id s j unique found).1
      ∙ ap (λ (st : JobStatus). some (cancelled_row now actor st j)) running

  -- Where the ids are unique and the job is processing: after a request for its cancellation, a run
  -- that reaches the arbiter ends cancelled, and the row is cancelled with the time and the actor of
  -- the request.
  pub cancel-finish_run :
      (settings : Settings) (later : ℕ)
      → let (result, s') = finish_run settings later job_id work_done after_request in
        (result ≡ run_cancelled)
        × (get_job job_id s'.jobs ≡ some (finalize_job later (request_cancellation now actor j)))
  cancel-finish_run settings later =
      finish_run-cancel_requested settings later job_id after_request
        (request_cancellation now actor j) request-UniqueIds request-row refl

  -- Where the ids are unique and the job is processing with attempts left: after a request for its
  -- cancellation, an analysis that fails with an error that may be retried puts the job back into
  -- the queue.
  pub cancel-finish_run_retry :
      (settings : Settings) (later : ℕ) (failure : Failure)
      → is_retryable failure ≡ true
      → j.attempt_count < settings.job_max_attempts
      → let (result, s') = finish_run settings later job_id (work_failed failure) after_request in
        (result ≡ run_retry) × ((k : Job) × (get_job job_id s'.jobs ≡ some k) × (k.status ≡ queued))
  unfolding fail_job
  cancel-finish_run_retry settings later failure again left =
      let (row, answered) =
        finish_run-work_failed settings later job_id after_request
          (request_cancellation now actor j) request-UniqueIds request-row failure in
      (
        answered ∙ ground arith,
        (fail_job settings later failure (request_cancellation now actor j), row, ground arith),
      )

module _ (settings : Settings) (worker : String) (now : ℕ) (job_id : String) (env : Meanwhile)
    (s : Store) (j : Job) (unique : UniqueIds s.jobs) (found : get_job job_id s.jobs ≡ some j)
    (due : is_claimable now j ≡ true) where
  abbrev claimed : Store
  claimed = claim settings worker now job_id s

  row-claim : get_job job_id claimed.jobs ≡ some (claim_job settings worker now j)
  unfolding claim
  row-claim =
      rw
        (
          get_job-update_where (claims settings worker now job_id) (claim_job settings worker now)
              job_id (λ k. refl) s.jobs,
          found,
        )
        (ground (arith, id-get_job job_id s.jobs {j = j} found, beq_refl job_id))

  UniqueIds-claim : UniqueIds claimed.jobs
  unfolding claim
  UniqueIds-claim =
      UniqueIds-update_where (claims settings worker now job_id) (claim_job settings worker now)
        (λ k. refl) s.jobs unique

  -- A rival that has read "queued" before the claim, by the row count of its check-and-set.
  process_status-claimed :
      (rival : String) (later : ℕ) (other : Meanwhile) (status : JobStatus)
      → is_queued status ≡ true
      → process_status settings rival later job_id other status claimed ≡ (ignored, claimed)
  unfolding process_status
  process_status-claimed rival later other queued read =
      rw
        (count_where-row job_id (is_claimable later) claimed.jobs
          {j = claim_job settings worker now j} UniqueIds-claim row-claim)
        refl
  process_status-claimed rival later other _ read = absurd (cc)

  -- Where the ids are unique: after one worker has claimed a due job, the run of the job by any worker
  -- is ignored and changes nothing, whether that worker reads the row after the claim or has read it
  -- before, so that only the row count of its own check-and-set stops it.
  pub claim-process_job :
      (rival : String) (later : ℕ) (other : Meanwhile)
      → (process_row settings rival later job_id other (get_job job_id s.jobs) claimed
          ≡ (ignored, claimed))
        × (process_job settings rival later job_id other claimed ≡ (ignored, claimed))
  unfolding process_job process_row process_status
  claim-process_job rival later other = (
    rw found (process_status-claimed rival later other j.status (ground (arith, due))),
    rw row-claim refl,
  )

  process_job-claim :
      process_job settings worker now job_id env s
      ≡ run_claimed settings now job_id env.during_analysis (env.before_checkpoint claimed)
  unfolding process_job process_row process_status
  process_job-claim =
      rw found
        (ground (arith, count_where-row job_id (is_claimable now) s.jobs {j = j} unique found))

  run_claimed-finish_run :
      contains job_id s.staged ≡ true
      → ((t : Store) → env.during_analysis t ≡ (work_done, t))
      → run_claimed settings now job_id env.during_analysis claimed
        ≡ finish_run settings now job_id work_done claimed
  unfolding run_claimed raise_if_cancelled is_cancel_pending claim
  run_claimed-finish_run staged works = rw (row-claim, staged, works claimed)

  -- Where the ids are unique: a due job whose file is staged, whose analysis succeeds and which
  -- nobody touches meanwhile is completed in one run, and its attempt is counted.
  pub process_job-completes :
      contains job_id s.staged ≡ true
      → ((t : Store) → env.before_checkpoint t ≡ t)
      → ((t : Store) → env.during_analysis t ≡ (work_done, t))
      → let (result, s') = process_job settings worker now job_id env s in
        (result ≡ run_completed)
        × (get_job job_id s'.jobs ≡ some (complete_job now (claim_job settings worker now j)))
  process_job-completes staged quiet works =
      rw (process_job-claim, quiet claimed, run_claimed-finish_run staged works)
        (finish_run-processing settings now job_id claimed (claim_job settings worker now j)
          UniqueIds-claim row-claim refl)
