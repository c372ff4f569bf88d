-- ===== src/Jobs/Cancelling.antt =====
-- What `cancel` and `finalize` do to the row of a job, on every branch.
use agentic_soc_triage_assis.Prelude.{
  ℕ, [], none, some, inl, inr, refl, ◌≡◌, ◌∷◌, ◌==◌, String, List, Option, Bool-cases, arith,
  if_ind, eq_of_beq, any, text_equality, beq_refl,
}
use agentic_soc_triage_assis.Jobs.Table.{get_job, remove_file, update_where}
use agentic_soc_triage_assis.Jobs.Cancellation.{
  add_audit_event, cancel_queued_job, CancellationOutcome, cancel_queued, cancel_processing, cancel,
  request_cancellation, cancellation, answer, is_queued_job, is_processing_job, cancellation_of,
  is_event_of, describe, job_not_cancellable,
}
use agentic_soc_triage_assis.Jobs.Model.{
  JobStatus, Job, Store, cancelled, queued, cancel_requested, processing, is_queued, is_processing,
  other, completed, failed,
}
use agentic_soc_triage_assis.Jobs.Rows.{UniqueIds, count_where-row, get_job-update_where}

-- The row after `cancel`, and the answer, by the status that it had.
abbrev pub cancelled_row : (now : ℕ) (actor_id : String) → JobStatus → Job → Job
cancelled_row now actor_id queued j = cancel_queued_job now actor_id j
cancelled_row now actor_id processing j = request_cancellation now actor_id j
cancelled_row now actor_id _ j = j

abbrev pub cancel_answer : (now : ℕ) → JobStatus → Job → CancellationOutcome
cancel_answer now queued j = cancellation (record {
  job_id = j.id;
  status = cancelled;
  cancel_requested_at = some now;
  cancelled_at = some now;
})
cancel_answer now processing j = cancellation (record {
  job_id = j.id;
  status = cancel_requested;
  cancel_requested_at = some now;
  cancelled_at = none;
})
cancel_answer now cancel_requested j = cancellation (describe j)
cancel_answer now cancelled j = cancellation (describe j)
cancel_answer now completed j = job_not_cancellable completed
cancel_answer now failed j = job_not_cancellable failed
cancel_answer now (other name) j = job_not_cancellable (other name)

pub id-get_job :
    (job_id : String) (js : List Job) {j : Job} → get_job job_id js ≡ some j → j.id ≡ job_id
unfolding get_job
id-get_job job_id [] e = absurd (cc)
id-get_job job_id (k ∷ js) {j} e = elim (Bool-cases (k.id == job_id)) [
  | inl hit ↦ ground (arith, eq_of_beq k.id job_id hit)
  | inr miss ↦ id-get_job job_id js {j = j} (cc miss)
]

pub jobs-add_audit_event :
    (a b c d : String) (t : ℕ) (r : Option String) (s : Store)
    → (add_audit_event a b c d t r s).jobs ≡ s.jobs
unfolding add_audit_event
jobs-add_audit_event a b c d t r s =
    if_ind (λ (s' : Store). s'.jobs ≡ s.jobs) (any (is_event_of b a) s.audit_events) (λ _. refl)
      (λ _. refl)

module _ (now : ℕ) (actor_type actor : String) (request : Option String) (job_id : String) where
  pub jobs-cancel_queued :
      (s : Store)
      → (cancel_queued now actor_type actor request job_id s).jobs
        ≡ update_where (is_queued_job job_id) (cancel_queued_job now actor) s.jobs
  unfolding cancel_queued remove_file
  jobs-cancel_queued s = simp jobs-add_audit_event

  pub jobs-cancel_processing :
      (s : Store)
      → (cancel_processing now actor_type actor request job_id s).jobs
        ≡ update_where (is_processing_job job_id) (request_cancellation now actor) s.jobs
  unfolding cancel_processing
  jobs-cancel_processing s = simp jobs-add_audit_event

  abbrev Answers : Store → Job → CancellationOutcome × Store → Type 0
  Answers s j (answered, s') =
      (answered ≡ cancel_answer now j.status j)
      × (get_job job_id s'.jobs ≡ some (cancelled_row now actor j.status j))

  module _ (s : Store) (j : Job) (unique : UniqueIds s.jobs)
      (found : get_job job_id s.jobs ≡ some j) where
    row-cancel_queued :
        j.status ≡ queued
        → get_job job_id (cancel_queued now actor_type actor request job_id s).jobs
          ≡ some (cancel_queued_job now actor j)
    row-cancel_queued e =
        rw
          (
            jobs-cancel_queued s,
            get_job-update_where (is_queued_job job_id) (cancel_queued_job now actor) job_id
                (λ k. refl) s.jobs,
            found,
          )
          (ground (arith, id-get_job job_id s.jobs {j = j} found, beq_refl job_id))

    row-cancel_processing :
        j.status ≡ processing
        → get_job job_id (cancel_processing now actor_type actor request job_id s).jobs
          ≡ some (request_cancellation now actor j)
    row-cancel_processing e =
        rw
          (
            jobs-cancel_processing s,
            get_job-update_where (is_processing_job job_id) (request_cancellation now actor) job_id
                (λ k. refl) s.jobs,
            found,
          )
          (ground (arith, id-get_job job_id s.jobs {j = j} found, beq_refl job_id))

    cancel_by :
        (status : JobStatus)
        → j.status ≡ status
        → Answers s j (cancel now actor_type actor request job_id s)
    unfolding cancel answer cancellation_of
    cancel_by queued e =
        rw (count_where-row job_id (λ (k : Job). is_queued k.status) s.jobs unique found, e)
          (ground (arith, id-get_job job_id s.jobs {j = j} found), row-cancel_queued e)
    cancel_by processing e =
        rw
          (
            count_where-row job_id (λ (k : Job). is_queued k.status) s.jobs unique found,
            count_where-row job_id (λ (k : Job). is_processing k.status) s.jobs unique found,
            e,
          )
          (ground (arith, id-get_job job_id s.jobs {j = j} found), row-cancel_processing e)
    cancel_by _ e =
        rw
          (
            count_where-row job_id (λ (k : Job). is_queued k.status) s.jobs unique found,
            count_where-row job_id (λ (k : Job). is_processing k.status) s.jobs unique found,
            e,
            found,
          )
          (ground arith, ground arith)

  -- Where the ids are unique and the job exists: what one call of `cancel` answers, and what becomes
  -- of the row, follow from the status that the row had, on every branch.
  pub cancel_lem :
      (s : Store) (j : Job)
      → UniqueIds s.jobs
      → get_job job_id s.jobs ≡ some j
      → let (answered, s') = cancel now actor_type actor request job_id s in
        (answered ≡ cancel_answer now j.status j)
        × (get_job job_id s'.jobs ≡ some (cancelled_row now actor j.status j))
  cancel_lem s j unique found = cancel_by s j unique found j.status refl
