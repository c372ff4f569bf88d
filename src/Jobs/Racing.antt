-- ===== src/Jobs/Racing.antt =====
-- A worker's run against a cancellation, against another worker, and to its end.
use agentic_soc_triage_assis.Prelude.{
  ℕ, some, refl, ◌≡◌, ◌&&◌, if◌then◌else◌, String, arith, beq_refl, inl, inr, ltb, text_equality,
  Bool-cases,
}
use agentic_soc_triage_assis.Jobs.Model.{
  Settings, Store, Job, cancel_requested, is_cancel_requested, processing, is_processing,
}
use agentic_soc_triage_assis.Jobs.Cancellation.{
  finalize_requested, finalize, is_cancelling_job, finalize_job, is_processing_job,
}
use agentic_soc_triage_assis.Jobs.Table.{remove_file, update_where, get_job, has_id}
use agentic_soc_triage_assis.Jobs.Rows.{UniqueIds, count_where-row, get_job-update_where}
use agentic_soc_triage_assis.Jobs.Worker.{
  finish_run, work_done, complete, handle_failure, run_cancelled, handle_failure_of, run_completed,
  Failure, complete_job, work_failed, fail_job, record_failure, is_retryable, run_retry, run_failed,
}
use agentic_soc_triage_assis.Jobs.Cancelling.{jobs-add_audit_event, id-get_job}

module _ (now : ℕ) (job_id : String) where
  jobs-finalize_requested :
      (s : Store)
      → (finalize_requested now job_id s).jobs
        ≡ update_where (is_cancelling_job job_id) (finalize_job now) s.jobs
  unfolding finalize_requested remove_file
  jobs-finalize_requested s = simp jobs-add_audit_event

  -- `finalize` ends a job whose cancellation was requested.
  pub finalize-row :
      (s : Store) (j : Job)
      → UniqueIds s.jobs
      → get_job job_id s.jobs ≡ some j
      → j.status ≡ cancel_requested
      → get_job job_id (finalize now job_id s).1.jobs ≡ some (finalize_job now j)
  unfolding finalize
  finalize-row s j unique found e =
      rw (count_where-row job_id (λ (k : Job). is_cancel_requested k.status) s.jobs unique found, e)
        (rw
          (
            jobs-finalize_requested s,
            get_job-update_where (is_cancelling_job job_id) (finalize_job now) job_id (λ k. refl)
                s.jobs,
            found,
          )
          (ground (arith, id-get_job job_id s.jobs {j = j} found, beq_refl job_id)))

id-fail_job :
    (settings : Settings) (now : ℕ) (failure : Failure) (j : Job)
    → (fail_job settings now failure j).id ≡ j.id
unfolding fail_job
id-fail_job settings now failure j = ground arith

module _ (settings : Settings) (now : ℕ) (job_id : String) (s : Store) (j : Job)
    (unique : UniqueIds s.jobs) (found : get_job job_id s.jobs ≡ some j) where
  -- The arbiter refuses to complete a job whose cancellation was requested.
  pub finish_run-cancel_requested :
      j.status ≡ cancel_requested
      → let (result, s') = finish_run settings now job_id work_done s in
        (result ≡ run_cancelled) × (get_job job_id s'.jobs ≡ some (finalize_job now j))
  unfolding finish_run
  finish_run-cancel_requested e =
      rw (count_where-row job_id (λ (k : Job). is_processing k.status) s.jobs unique found, e)
        (refl, finalize-row now job_id s j unique found e)

  pub finish_run-processing :
      j.status ≡ processing
      → let (result, s') = finish_run settings now job_id work_done s in
        (result ≡ run_completed) × (get_job job_id s'.jobs ≡ some (complete_job now j))
  unfolding finish_run complete remove_file
  finish_run-processing e =
      rw (count_where-row job_id (λ (k : Job). is_processing k.status) s.jobs unique found, e)
        (
          refl,
          rw
              (
                get_job-update_where (is_processing_job job_id) (complete_job now) job_id
                    (λ k. refl) s.jobs,
                found,
              )
              (ground (arith, id-get_job job_id s.jobs {j = j} found, beq_refl job_id)),
        )

  row-record_failure :
      (failure : Failure)
      → get_job job_id (record_failure settings now job_id failure s).jobs
        ≡ some (fail_job settings now failure j)
  unfolding record_failure
  row-record_failure failure =
      rw
        (
          get_job-update_where (has_id job_id) (fail_job settings now failure) job_id
              (id-fail_job settings now failure) s.jobs,
          found,
        )
        (ground (arith, id-get_job job_id s.jobs {j = j} found, beq_refl job_id))

  pub finish_run-work_failed :
      (failure : Failure)
      → let (result, s') = finish_run settings now job_id (work_failed failure) s in
        (get_job job_id s'.jobs ≡ some (fail_job settings now failure j))
        × (result ≡ (
            if is_retryable failure && ltb j.attempt_count settings.job_max_attempts
            then run_retry
            else run_failed))
  unfolding finish_run handle_failure handle_failure_of remove_file
  finish_run-work_failed failure =
      rw found
        (elim (Bool-cases (is_retryable failure && ltb j.attempt_count settings.job_max_attempts)) [
          | inl again ↦ rw again (row-record_failure failure, refl)
          | inr last ↦ rw last (row-record_failure failure, refl)
        ])
