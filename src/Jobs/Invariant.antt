-- ===== src/Jobs/Invariant.antt =====
-- What holds of every row of the job table, between any two transactions of the queue.
-- A job that runs has a lease, which names its worker, and rows that have ended are released.
use agentic_soc_triage_assis.Jobs.Model.{
  Job, Settings, is_cancelled, is_cancel_requested, JobStatus, is_processing, completed, processing,
}
use agentic_soc_triage_assis.Prelude.{
  none, true, ◌≡◌, ◌≤◌, is_some, arith, Bool, List, All, All-append, false, refl,
}
use agentic_soc_triage_assis.Jobs.Worker.{fail_job}
use agentic_soc_triage_assis.Jobs.Recovery.{requeue_or_fail, holds_lease}
use agentic_soc_triage_assis.Jobs.RowRules.{IsKept}
use agentic_soc_triage_assis.Jobs.Table.{update_where, All-update_where}

abbrev pub is_completed : JobStatus → Bool
is_completed completed = true
is_completed _ = false

processing-holds_lease :
    (status : JobStatus) → is_processing status ≡ true → holds_lease status ≡ true
processing-holds_lease processing h = refl
processing-holds_lease _ h = absurd (cc)

pub record IsRegular (j : Job) : Type 0 where
  pub leased :
      holds_lease j.status ≡ true
      → (is_some j.lease_expires_at ≡ true) × (is_some j.started_at ≡ true)
  pub lease_owned :
      is_some j.lease_expires_at ≡ true → (is_some j.worker_id ≡ true) × (1 ≤ j.attempt_count)
  pub request_recorded :
      is_cancel_requested j.status ≡ true
      → (is_some j.cancel_requested_at ≡ true) × (is_some j.cancel_requested_by ≡ true)
  pub cancelled_released :
      is_cancelled j.status ≡ true
      → (is_some j.cancelled_at ≡ true)
        × (j.lease_expires_at ≡ none)
        × (j.worker_id ≡ none)
        × (j.next_retry_at ≡ none)
  pub completed_released :
      is_completed j.status ≡ true
      → (is_some j.completed_at ≡ true) × (j.lease_expires_at ≡ none) × (j.next_retry_at ≡ none)

-- A row invariant is an invariant of the table, once each write keeps it on its row.
All-at :
    (P : Job → Type 0) (f : Job → Job) (p : Job → Bool) (js : List Job)
    → ((j : Job) → P j → P (f j))
    → All P js
    → All P (update_where p f js)
All-at P f p js keep h = All-update_where P p f (λ j _. keep j) js h

pub IsRegular-IsKept : (settings : Settings) → IsKept settings (All IsRegular)
unfolding fail_job requeue_or_fail
IsRegular-IsKept settings = record {
  at_new = λ env upload sha key js _ h. All-append _ js _ h (ground arith, tt);
  at_reuse = λ now read p js. All-at _ _ p js (λ j h. ground arith);
  at_resubmit = λ now read p js. All-at _ _ p js (λ j h. ground arith);
  at_publish_failure = λ p js. All-at _ _ p js (λ j h. ground arith);
  at_claim = λ worker now job_id js. All-at _ _ _ js (λ j h. ground arith);
  at_complete = λ now p js. All-at _ _ p js (λ j h. ground arith);
  at_fail = λ now failure p js. All-at _ _ p js (λ j h. ground arith);
  at_recover = λ now read p js. All-at _ _ p js (λ j h. ground arith);
  at_mark_failed = λ error_code p js. All-at _ _ p js (λ j h. ground arith);
  at_cancel = λ now actor p js. All-at _ _ p js (λ j h. ground arith);
  at_request = λ now actor job_id js.
      All-update_where _ _ _ (λ j running h. ground (arith, processing-holds_lease j.status)) js;
  at_finalize = λ now p js. All-at _ _ p js (λ j h. ground arith);
}
