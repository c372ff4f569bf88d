-- ===== src/Jobs/Retrying.antt =====
-- The back-off of a retry, and what the failure handler of a run leaves.
use native.Mathlib.Nat.{pow-suc}
use agentic_soc_triage_assis.Prelude.{
  ℕ, suc, ◌≡◌, ◌≤◌, ◌*◌, ◌^◌, min, arith, String, none, true, false, ◌&&◌, [], some, inl, inr, refl,
  ◌∷◌, ◌<◌, ◌+◌, ◌==◌, ◌⊎◌, List, ltb, contains, filter, Bool-cases, not, text_equality, beq_comm,
}
use agentic_soc_triage_assis.Jobs.Worker.{
  retry_delay, second, finish_run, handle_failure, handle_failure_of, record_failure, fail_job,
  Failure, is_retryable, error_code_of, work_failed, run_retry, run_failed,
}
use agentic_soc_triage_assis.Jobs.Racing.{finish_run-work_failed}
use agentic_soc_triage_assis.Jobs.Table.{get_job, remove_file}
use agentic_soc_triage_assis.Jobs.Rows.{UniqueIds}
use agentic_soc_triage_assis.Jobs.Model.{Settings, Store, Job, queued, failed}

min_mono : (a b c : ℕ) → a ≤ b → min a c ≤ min b c
min_mono a b c h = omega arith

-- The delay never passes the configured maximum, never shrinks from one attempt to the next, and
-- after the first attempt it is the base, doubled with each further one, up to the maximum.
pub retry_delay_bounds :
    (settings : Settings) (n : ℕ)
    → (retry_delay settings n ≤ settings.job_retry_max_seconds * second)
      × (retry_delay settings n ≤ retry_delay settings (suc n))
      × (retry_delay settings (suc n)
          ≡ min
              (settings.job_retry_base_seconds * 2 ^ n * second)
              (settings.job_retry_max_seconds * second))
unfolding retry_delay
retry_delay_bounds settings n = (omega arith, rw pow-suc (grind arith), rw pow-suc (grind arith))

contains-without :
    (name : String) (names : List String)
    → contains name (filter (λ n. not (n == name)) names) ≡ false
contains-without name [] = refl
contains-without name (n ∷ names) = ground (arith, contains-without name names, beq_comm n name)

-- The row is free of its worker and its lease, and keeps its attempts and its key.
pub record IsReleased (j k : Job) : Type 0 where
  pub no_worker : k.worker_id ≡ none
  pub no_lease : k.lease_expires_at ≡ none
  pub same_attempts : k.attempt_count ≡ j.attempt_count
  pub same_key : k.idempotency_key ≡ j.idempotency_key

-- The job waits for another attempt, for no longer than the maximum of the back-off.
pub record IsRetried (settings : Settings) (now : ℕ) (failure : Failure) (j k : Job) : Type 0 where
  pub may_retry : is_retryable failure ≡ true
  pub attempt_left : j.attempt_count < settings.job_max_attempts
  pub back_in_queue : k.status ≡ queued
  pub named_error : k.error_code ≡ some (error_code_of failure)
  pub due : ℕ
  pub due_at : k.next_retry_at ≡ some due
  pub not_before : now ≤ due
  pub not_after_maximum : due ≤ now + settings.job_retry_max_seconds * second

-- The job has ended, by its error or by its last attempt.
pub record IsEnded (settings : Settings) (failure : Failure) (j k : Job) : Type 0 where
  pub ended : k.status ≡ failed
  pub reason :
      ((is_retryable failure ≡ false) × (k.error_code ≡ some (error_code_of failure)))
      ⊎ ((is_retryable failure ≡ true)
          × (settings.job_max_attempts ≤ j.attempt_count)
          × (k.error_code ≡ some "max_attempts_reached"))

module _ (settings : Settings) (now : ℕ) (failure : Failure) (j : Job) where
  abbrev written : Job
  written = fail_job settings now failure j

  fail_job-IsReleased : IsReleased j (fail_job settings now failure j)
  unfolding fail_job
  fail_job-IsReleased = ground arith

  fail_job-IsRetried :
      is_retryable failure ≡ true
      → ltb j.attempt_count settings.job_max_attempts ≡ true
      → IsRetried settings now failure j (fail_job settings now failure j)
  unfolding fail_job
  fail_job-IsRetried again left =
      let bound = (retry_delay_bounds settings j.attempt_count).0 in
      rw (again, left)
        (record {
          may_retry = again;
          attempt_left = ground (arith, left);
          back_in_queue = refl;
          named_error = refl;
          due = now + retry_delay settings j.attempt_count;
          due_at = refl;
          not_before = omega arith;
          not_after_maximum = omega (arith, bound);
        })

  fail_job-IsEnded :
      (is_retryable failure && ltb j.attempt_count settings.job_max_attempts) ≡ false
      → IsEnded settings failure j (fail_job settings now failure j)
  unfolding fail_job
  fail_job-IsEnded last = elim (Bool-cases (is_retryable failure)) [
    | inl again ↦ record {
      ended = ground (arith, again, last);
      reason = inr (again, ground (arith, again, last), ground (arith, again, last));
    }
    | inr never ↦ record {
      ended = ground (arith, never);
      reason = inl (never, ground (arith, never));
    }
  ]

module _ (settings : Settings) (now : ℕ) (job_id : String) (s : Store) (j : Job)
    (unique : UniqueIds s.jobs) (found : get_job job_id s.jobs ≡ some j) where
  -- Where the ids are unique and the job exists, whatever its status: after an analysis that fails, the
  -- row is free of worker and lease with its attempts unchanged. Either the error may be retried and an
  -- attempt is left: then the run is a retry, the job is queued under the name of the error, due after
  -- now and within the maximal delay, and its file stays. Or the run has failed, the job is failed with
  -- the error's name or "max_attempts_reached", and its file is gone.
  pub finish_run-IsHandled :
      (failure : Failure)
      → let (result, s') = finish_run settings now job_id (work_failed failure) s in
        (k : Job) × (get_job job_id s'.jobs ≡ some k)
        × IsReleased j k
        × (((result ≡ run_retry) × IsRetried settings now failure j k × (s'.staged ≡ s.staged))
            ⊎ ((result ≡ run_failed)
                × IsEnded settings failure j k
                × (contains job_id s'.staged ≡ false)))
  unfolding finish_run handle_failure handle_failure_of remove_file record_failure
  finish_run-IsHandled failure =
      let (row, _) = finish_run-work_failed settings now job_id s j unique found failure in
      (
        fail_job settings now failure j,
        row,
        fail_job-IsReleased settings now failure j,
        rw found
            (elim (Bool-cases
              (is_retryable failure && ltb j.attempt_count settings.job_max_attempts)) [
                | inl again ↦ rw again (
                    inl (
                      refl,
                      fail_job-IsRetried settings now failure j (ground (arith, again))
                          (ground (arith, again)),
                      refl,
                    ))
                | inr last ↦ rw last (
                    inr (
                      refl,
                      fail_job-IsEnded settings now failure j last,
                      contains-without job_id s.staged,
                    ))
              ]),
      )
