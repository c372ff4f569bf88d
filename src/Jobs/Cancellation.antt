-- ===== src/Jobs/Cancellation.antt =====
-- agent/application/cancellation.py: the checkpoint that a running analysis polls, and the two
-- transactions of `JobCancellationService`. The random id of an audit row is left out, and a staged
-- file that cannot be deleted (which is logged and ignored) is not modelled.
use agentic_soc_triage_assis.Prelude.{
  some, none, text_equality, String, ◌&&◌, if◌then◌else◌, false, [], Option, true, ◌++◌, ◌==◌, Bool,
  ltb, ℕ, ◌∷◌, any,
}
use agentic_soc_triage_assis.Jobs.Model.{
  Job, JobStatus, cancel_requested, cancelled, Store, AuditEvent, is_queued, is_processing,
  is_cancel_requested,
}
use agentic_soc_triage_assis.Jobs.Table.{update_where, count_where, get_job, has_id, remove_file}

abbrev pub user_requested : String
user_requested = "user_requested"

pub record JobCancellationResult : Type 0 where
  pub job_id : String
  pub status : JobStatus
  pub cancel_requested_at : Option ℕ
  pub cancelled_at : Option ℕ

-- `JobNotFoundError` and `JobNotCancellableError(status)`.
pub data CancellationOutcome : Type 0 where
  cancellation : JobCancellationResult → CancellationOutcome
  job_not_found : CancellationOutcome
  job_not_cancellable : JobStatus → CancellationOutcome

-- `raise_if_cancelled`: does the database ask for a stop?
unfoldable pub is_cancel_pending : Option Job → Bool
is_cancel_pending none = false
is_cancel_pending (some j) = elim j.status [
  | cancel_requested ↦ true
  | cancelled ↦ true
  | _ ↦ false
]

unfoldable pub raise_if_cancelled : String → Store → Bool
raise_if_cancelled job_id s = is_cancel_pending (get_job job_id s.jobs)

abbrev pub is_event_of : String → String → AuditEvent → Bool
is_event_of event_type job_id a =
    a.event_type == event_type && (a.entity_type == "ingestion_job" && a.entity_id == job_id)

-- One audit row for each event type and job.
unfoldable pub add_audit_event :
    (job_id event_type actor_type actor_id : String) (timestamp : ℕ) (request_id : Option String)
    → Store
    → Store
add_audit_event job_id event_type actor_type actor_id timestamp request_id s =
    if any (is_event_of event_type job_id) s.audit_events then s else record s {
      audit_events =
          s.audit_events
          ++ record {
            timestamp = timestamp;
            event_type = event_type;
            entity_type = "ingestion_job";
            entity_id = job_id;
            actor_type = actor_type;
            actor_id = actor_id;
            request_id = request_id;
            cancel_reason_code = user_requested;
          }
            ∷ [];
    }

module _ (now : ℕ) (actor_id : String) where
  -- The values of the update of a queued row, and of a running one.
  abbrev pub cancel_queued_job : Job → Job
  cancel_queued_job j = record j {
    status = cancelled;
    cancel_requested_at = some now;
    cancelled_at = some now;
    cancel_reason_code = some user_requested;
    cancel_requested_by = some actor_id;
    worker_id = none;
    next_retry_at = none;
    lease_expires_at = none;
  }

  abbrev pub request_cancellation : Job → Job
  request_cancellation j = record j {
    status = cancel_requested;
    cancel_requested_at = some now;
    cancel_reason_code = some user_requested;
    cancel_requested_by = some actor_id;
  }

abbrev pub is_queued_job : String → Job → Bool
is_queued_job job_id j = has_id job_id j && is_queued j.status

abbrev pub is_processing_job : String → Job → Bool
is_processing_job job_id j = has_id job_id j && is_processing j.status

abbrev pub is_cancelling_job : String → Job → Bool
is_cancelling_job job_id j = has_id job_id j && is_cancel_requested j.status

abbrev pub describe : Job → JobCancellationResult
describe j = record {
  job_id = j.id;
  status = j.status;
  cancel_requested_at = j.cancel_requested_at;
  cancelled_at = j.cancelled_at;
}

-- The answer where neither update hit a row.
unfoldable pub cancellation_of : JobStatus → Job → CancellationOutcome
cancellation_of cancel_requested j = cancellation (describe j)
cancellation_of cancelled j = cancellation (describe j)
cancellation_of status j = job_not_cancellable status

unfoldable pub answer : Option Job → CancellationOutcome
answer none = job_not_found
answer (some j) = cancellation_of j.status j

module _ (now : ℕ) (actor_type actor_id : String) (request_id : Option String)
    (job_id : String) where
  -- `cancel`, on a queued job: it ends at once and its file goes.
  unfoldable pub cancel_queued : Store → Store
  cancel_queued s =
      let updated = record s {
        jobs = update_where (is_queued_job job_id) (cancel_queued_job now actor_id) s.jobs;
      } in
      let requested =
        add_audit_event job_id "job_cancellation_requested" actor_type actor_id now request_id
          updated in
      let audited =
        add_audit_event job_id "job_cancelled" "system" "cancellation_service" now request_id
          requested in
      remove_file job_id audited

  -- `cancel`, on a running job: the request is recorded for the worker to see.
  unfoldable pub cancel_processing : Store → Store
  cancel_processing s =
      add_audit_event job_id "job_cancellation_requested" actor_type actor_id now request_id
        (record s {
          jobs = update_where (is_processing_job job_id) (request_cancellation now actor_id) s.jobs;
        })

  abbrev result_at : JobStatus → Option ℕ → CancellationOutcome
  result_at status cancelled_at = cancellation (record {
    job_id = job_id;
    status = status;
    cancel_requested_at = some now;
    cancelled_at = cancelled_at;
  })

  unfoldable pub cancel : Store → CancellationOutcome × Store
  cancel s =
      if ltb 0 (count_where (is_queued_job job_id) s.jobs)
      then (result_at cancelled (some now), cancel_queued s)
      else if ltb 0 (count_where (is_processing_job job_id) s.jobs)
      then (result_at cancel_requested none, cancel_processing s)
      else (answer (get_job job_id s.jobs), s)

-- The update of `finalize`.
abbrev pub finalize_job : ℕ → Job → Job
finalize_job now j = record j {
  status = cancelled;
  cancelled_at = some now;
  worker_id = none;
  next_retry_at = none;
  lease_expires_at = none;
}

module _ (now : ℕ) (job_id : String) where
  unfoldable pub finalize_requested : Store → Store
  finalize_requested s = remove_file job_id (
      add_audit_event job_id "job_cancelled" "system" "analysis_worker" now none
        (record s { jobs = update_where (is_cancelling_job job_id) (finalize_job now) s.jobs }))

  abbrev requested_at : Option Job → Option ℕ
  requested_at none = none
  requested_at (some j) = j.cancel_requested_at

  abbrev finalized : Option Job → CancellationOutcome
  finalized o = cancellation (record {
    job_id = job_id;
    status = cancelled;
    cancel_requested_at = requested_at o;
    cancelled_at = some now;
  })

  abbrev unchanged : Option Job → CancellationOutcome
  unchanged none = job_not_found
  unchanged (some j) = cancellation (describe j)

  unfoldable pub finalize : Store → CancellationOutcome × Store
  finalize s =
      if ltb 0 (count_where (is_cancelling_job job_id) s.jobs)
      then (
        let s' = finalize_requested s in finalized (get_job job_id s'.jobs),
        finalize_requested s,
      )
      else (unchanged (get_job job_id s.jobs), s)
