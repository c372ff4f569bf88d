-- ===== src/Jobs/RowRules.antt =====
-- Invariants of the job table: what each write has to keep, and that then every operation of the
-- queue keeps it, whatever the other processes do between its transactions.
use agentic_soc_triage_assis.Prelude.{
  Option, ◌≡◌, ℕ, String, ltb, none, any, ◌&&◌, if_ind, contains, text_equality, Bool, List, ◌∷◌,
  some, [], false, ◌++◌,
}
use agentic_soc_triage_assis.Jobs.Model.{Job, JobStatus, queued, cancel_requested, Store, Settings}
use agentic_soc_triage_assis.Jobs.Table.{has_id, get_job, count_where, remove_file, update_where}
use agentic_soc_triage_assis.Jobs.Cancellation.{
  add_audit_event, cancel_queued_job, request_cancellation, finalize_job, cancel_queued,
  cancel_processing, cancel, finalize_requested, finalize, raise_if_cancelled, is_event_of,
  is_queued_job, is_processing_job, is_cancelling_job,
}
use agentic_soc_triage_assis.Jobs.Worker.{
  Failure, WorkOutcome, work_done, work_cancelled, work_failed, claim_job, claim, complete_job,
  complete, fail_job, record_failure, handle_failure, finish_run, run_claimed, process_job,
  run_once, next_job, Meanwhile, claims, is_retryable, handle_failure_of, process_status,
  process_row, run_next, mark_failed, mark_analysis_failed,
}
use agentic_soc_triage_assis.Jobs.Recovery.{requeue_or_fail}
use agentic_soc_triage_assis.Jobs.Submission.{
  Surroundings, Upload, new_job, reuse_job, resubmit_job, publish_failed_job, clashes,
}

-- What an invariant of the table has to survive: one field for each write of the source.
pub record IsKept (settings : Settings) (T : List Job → Type 0) : Type 0 where
  pub at_new :
      (env : Surroundings) (upload : Upload) (sha key : String) (js : List Job)
      → clashes (new_job env upload sha key) js ≡ false
      → T js
      → T (js ++ new_job env upload sha key ∷ [])
  pub at_reuse :
      (now : ℕ) (read : Job) (p : Job → Bool) (js : List Job)
      → T js
      → T (update_where p (reuse_job now read) js)
  pub at_resubmit :
      (now : ℕ) (read : Job) (p : Job → Bool) (js : List Job)
      → T js
      → T (update_where p (resubmit_job now read) js)
  pub at_publish_failure :
      (p : Job → Bool) (js : List Job) → T js → T (update_where p publish_failed_job js)
  pub at_claim :
      (worker : String) (now : ℕ) (job_id : String) (js : List Job)
      → T js
      → T (update_where (claims settings worker now job_id) (claim_job settings worker now) js)
  pub at_complete :
      (now : ℕ) (p : Job → Bool) (js : List Job) → T js → T (update_where p (complete_job now) js)
  pub at_fail :
      (now : ℕ) (failure : Failure) (p : Job → Bool) (js : List Job)
      → T js
      → T (update_where p (fail_job settings now failure) js)
  pub at_recover :
      (now : ℕ) (read : Job) (p : Job → Bool) (js : List Job)
      → T js
      → T (update_where p (requeue_or_fail settings now read) js)
  pub at_mark_failed :
      (error_code : String) (p : Job → Bool) (js : List Job)
      → T js
      → T (update_where p (mark_failed error_code) js)
  pub at_cancel :
      (now : ℕ) (actor : String) (p : Job → Bool) (js : List Job)
      → T js
      → T (update_where p (cancel_queued_job now actor) js)
  pub at_request :
      (now : ℕ) (actor job_id : String) (js : List Job)
      → T js
      → T (update_where (is_processing_job job_id) (request_cancellation now actor) js)
  pub at_finalize :
      (now : ℕ) (p : Job → Bool) (js : List Job) → T js → T (update_where p (finalize_job now) js)

-- A transaction keeps the invariant.
abbrev pub Keeps : (List Job → Type 0) → (Store → Store) → Type 0
Keeps T f = (s : Store) → T s.jobs → T (f s).jobs

module _ {settings : Settings} {T : List Job → Type 0} (kept : IsKept settings T) where
  -- The state that an operation leaves, whatever it answers.
  abbrev Leaves : {A : Type 0} → A × Store → Type 0
  Leaves r = T r.1.jobs

  add_audit_event-Keeps :
      (a b c d : String) (t : ℕ) (r : Option String) → Keeps T (add_audit_event a b c d t r)
  unfolding add_audit_event
  add_audit_event-Keeps a b c d t r s h =
      if_ind (λ (s' : Store). T s'.jobs) (any (is_event_of b a) s.audit_events) (λ _. h) (λ _. h)

  pub remove_file-Keeps : (job_id : String) → Keeps T (remove_file job_id)
  unfolding remove_file
  remove_file-Keeps job_id s h = h

  cancel_queued-Keeps :
      (now : ℕ) (actor_type actor : String) (request : Option String) (job_id : String)
      → Keeps T (cancel_queued now actor_type actor request job_id)
  unfolding cancel_queued
  cancel_queued-Keeps now actor_type actor request job_id s h = remove_file-Keeps job_id _ (
      add_audit_event-Keeps _ _ _ _ now request _ (
        add_audit_event-Keeps _ _ _ _ now request _
          (kept.at_cancel now actor (is_queued_job job_id) s.jobs h)))

  cancel_processing-Keeps :
      (now : ℕ) (actor_type actor : String) (request : Option String) (job_id : String)
      → Keeps T (cancel_processing now actor_type actor request job_id)
  unfolding cancel_processing
  cancel_processing-Keeps now actor_type actor request job_id s h =
      add_audit_event-Keeps _ _ _ _ now request _ (kept.at_request now actor job_id s.jobs h)

  pub cancel-Keeps :
      (now : ℕ) (actor_type actor : String) (request : Option String) (job_id : String)
      → Keeps T (λ s. (cancel now actor_type actor request job_id s).1)
  unfolding cancel
  cancel-Keeps now actor_type actor request job_id s h =
      if_ind Leaves (ltb 0 (count_where (is_queued_job job_id) s.jobs))
        (λ _. cancel_queued-Keeps now actor_type actor request job_id s h)
        (λ _.
          if_ind Leaves (ltb 0 (count_where (is_processing_job job_id) s.jobs))
            (λ _. cancel_processing-Keeps now actor_type actor request job_id s h) (λ _. h))

  finalize_requested-Keeps : (now : ℕ) (job_id : String) → Keeps T (finalize_requested now job_id)
  unfolding finalize_requested
  finalize_requested-Keeps now job_id s h = remove_file-Keeps job_id _ (
      add_audit_event-Keeps _ _ _ _ now none _
        (kept.at_finalize now (is_cancelling_job job_id) s.jobs h))

  pub finalize-Keeps : (now : ℕ) (job_id : String) → Keeps T (λ s. (finalize now job_id s).1)
  unfolding finalize
  finalize-Keeps now job_id s h =
      if_ind Leaves (ltb 0 (count_where (is_cancelling_job job_id) s.jobs))
        (λ _. finalize_requested-Keeps now job_id s h) (λ _. h)

  pub claim-Keeps :
      (worker : String) (now : ℕ) (job_id : String) → Keeps T (claim settings worker now job_id)
  unfolding claim
  claim-Keeps worker now job_id s h = kept.at_claim worker now job_id s.jobs h

  pub complete-Keeps : (now : ℕ) (job_id : String) → Keeps T (complete now job_id)
  unfolding complete
  complete-Keeps now job_id s h = kept.at_complete now (is_processing_job job_id) s.jobs h

  record_failure-Keeps :
      (now : ℕ) (job_id : String) (failure : Failure)
      → Keeps T (record_failure settings now job_id failure)
  unfolding record_failure
  record_failure-Keeps now job_id failure s h = kept.at_fail now failure (has_id job_id) s.jobs h

  handle_failure_of-Leaves :
      (now : ℕ) (job_id : String) (failure : Failure) (o : Option Job) (s : Store)
      → T s.jobs
      → Leaves (handle_failure_of settings now job_id failure o s)
  unfolding handle_failure_of
  handle_failure_of-Leaves now job_id failure none s h = h
  handle_failure_of-Leaves now job_id failure (some j) s h =
      let written = record_failure-Keeps now job_id failure s h in
      if_ind Leaves (is_retryable failure && ltb j.attempt_count settings.job_max_attempts)
        (λ _. written) (λ _. remove_file-Keeps job_id _ written)

  pub handle_failure-Keeps :
      (now : ℕ) (job_id : String) (failure : Failure)
      → Keeps T (λ s. (handle_failure settings now job_id failure s).1)
  unfolding handle_failure
  handle_failure-Keeps now job_id failure s h =
      handle_failure_of-Leaves now job_id failure (get_job job_id s.jobs) s h

  pub finish_run-Keeps :
      (now : ℕ) (job_id : String) (outcome : WorkOutcome)
      → Keeps T (λ s. (finish_run settings now job_id outcome s).1)
  unfolding finish_run
  finish_run-Keeps now job_id work_cancelled s h = finalize-Keeps now job_id s h
  finish_run-Keeps now job_id (work_failed failure) s h =
      handle_failure-Keeps now job_id failure s h
  finish_run-Keeps now job_id work_done s h =
      if_ind Leaves (ltb 0 (count_where (is_processing_job job_id) s.jobs))
        (λ _. remove_file-Keeps job_id _ (complete-Keeps now job_id s h))
        (λ _. finalize-Keeps now job_id s h)

  pub run_claimed-Keeps :
      (now : ℕ) (job_id : String) (during : Store → WorkOutcome × Store)
      → Keeps T (λ s. (during s).1)
      → Keeps T (λ s. (run_claimed settings now job_id during s).1)
  unfolding run_claimed
  run_claimed-Keeps now job_id during fair s h =
      if_ind Leaves (raise_if_cancelled job_id s) (λ _. finalize-Keeps now job_id s h)
        (λ _.
          if_ind Leaves (contains job_id s.staged)
            (λ _. finish_run-Keeps now job_id (during s).0 (during s).1 (fair s h))
            (λ _. handle_failure-Keeps now job_id _ s h))

  module _ (env : Meanwhile) (before : Keeps T env.before_checkpoint)
      (during : Keeps T (λ s. (env.during_analysis s).1)) where
    process_status-Leaves :
        (worker : String) (now : ℕ) (job_id : String) (status : JobStatus) (s : Store)
        → T s.jobs
        → Leaves (process_status settings worker now job_id env status s)
    unfolding process_status
    process_status-Leaves worker now job_id cancel_requested s h = finalize-Keeps now job_id s h
    process_status-Leaves worker now job_id queued s h =
        if_ind Leaves (ltb 0 (count_where (claims settings worker now job_id) s.jobs))
          (λ _.
            run_claimed-Keeps now job_id env.during_analysis during _
              (before _ (claim-Keeps worker now job_id s h)))
          (λ _. h)
    process_status-Leaves worker now job_id _ s h = h

    pub process_row-Leaves :
        (worker : String) (now : ℕ) (job_id : String) (o : Option Job) (s : Store)
        → T s.jobs
        → Leaves (process_row settings worker now job_id env o s)
    unfolding process_row
    process_row-Leaves worker now job_id none s h = h
    process_row-Leaves worker now job_id (some j) s h =
        process_status-Leaves worker now job_id j.status s h

    pub process_job-Keeps :
        (worker : String) (now : ℕ) (job_id : String)
        → Keeps T (λ s. (process_job settings worker now job_id env s).1)
    unfolding process_job
    process_job-Keeps worker now job_id s h =
        process_row-Leaves worker now job_id (get_job job_id s.jobs) s h

    run_next-Leaves :
        (worker : String) (now : ℕ) (o : Option Job) (s : Store)
        → T s.jobs
        → Leaves (run_next settings worker now env o s)
    unfolding run_next
    run_next-Leaves worker now none s h = h
    run_next-Leaves worker now (some j) s h = process_job-Keeps worker now j.id s h

    pub run_once-Keeps :
        (worker : String) (now : ℕ) (nulls_first : Bool)
        → Keeps T (λ s. (run_once settings worker now env nulls_first s).1)
    unfolding run_once
    run_once-Keeps worker now nulls_first s h =
        run_next-Leaves worker now (next_job nulls_first now s.jobs) s h

  pub mark_analysis_failed-Keeps :
      (error_code job_id : String) → Keeps T (mark_analysis_failed error_code job_id)
  unfolding mark_analysis_failed
  mark_analysis_failed-Keeps error_code job_id s h =
      kept.at_mark_failed error_code (has_id job_id) s.jobs h
