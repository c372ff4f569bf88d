-- ===== src/Jobs/Reuse.antt =====
-- A file that is submitted again: which job answers, and what happens to the table.
use agentic_soc_triage_assis.Prelude.{
  ℕ, some, true, refl, ◌≡◌, ◌≤◌, List, String, contains, arith, text_equality, is_some, [], false,
  inl, inr, ◌∷◌, ◌++◌, ◌⊎◌, beq_refl, Option-cases, any, Bool-cases,
}
use agentic_soc_triage_assis.Jobs.Model.{
  JobStatus, Job, queued, Settings, failed, Store, completed, other, processing, cancelled,
  cancel_requested,
}
use agentic_soc_triage_assis.Jobs.Submission.{
  Surroundings, Upload, reuse_job, key_of, resubmit_job, Submission, clashes, create_job,
  submit_existing, submit_staged, submission, new_job, answer_clash, submit_found, resubmit,
  requeue_moved, dispatch_and_return, insert_job,
}
use agentic_soc_triage_assis.Jobs.Worker.{fail_job, Failure, is_retryable, claim_job}
use agentic_soc_triage_assis.Jobs.Table.{
  update_where, has_id, find_by_key, remove_file, move_file, has_key,
}
use agentic_soc_triage_assis.Jobs.Staging.{staged_file}

-- The rows after the submission of a file that a job of this status already has.
abbrev pub known_jobs : ℕ → JobStatus → Job → List Job → List Job
known_jobs now completed j js = update_where (has_id j.id) (reuse_job now j) js
known_jobs now failed j js = update_where (has_id j.id) (resubmit_job now j) js
known_jobs now _ j js = js

abbrev pub known_status : JobStatus → JobStatus
known_status failed = queued
known_status status = status

find_by_key-append :
    (key : String) (new : Job) (js : List Job)
    → new.idempotency_key ≡ some key
    → is_some (find_by_key key js) ≡ false
    → find_by_key key (js ++ new ∷ []) ≡ some new
unfolding find_by_key
find_by_key-append key new [] e free = rw (e, beq_refl key) refl
find_by_key-append key new (j ∷ js) e free = elim (Bool-cases (has_key key j)) [
  | inl hit ↦ absurd (ground (arith, hit))
  | inr miss ↦ rw miss (find_by_key-append key new js e (ground (arith, miss)))
]

find_by_key-cases :
    (key : String) (js : List Job)
    → (is_some (find_by_key key js) ≡ false) ⊎ ((k : Job) × (find_by_key key js ≡ some k))
find_by_key-cases key js = elim (Option-cases (find_by_key key js)) [
  | inl free ↦ inl (rw free refl)
  | inr (k, there) ↦ inr (k, there)
]

-- Where the new id is fresh, the dispatcher publishes and nothing happens between the commit and the
-- answer: whatever rows other requests have inserted since the look-up, the creation of a job never
-- ends in an IntegrityError. Its answer is the job that has the key in the table afterwards, with that
-- job's status, and it says "reused" exactly when the key was in the table before.
pub create_job-find_by_key :
    (env : Surroundings) (upload : Upload) (sha key : String) (s : Store)
    → any (has_id env.uuid4) s.jobs ≡ false
    → ((t : Store) → env.before_publish_result t ≡ t)
    → env.publishes ≡ true
    → let (answered, s') = create_job env (new_job env upload sha key) key s in
      (k : Job) × (find_by_key key s'.jobs ≡ some k)
      × (answered ≡ submission k.id (is_some (find_by_key key s.jobs)) k.status)
unfolding create_job answer_clash dispatch_and_return insert_job remove_file
create_job-find_by_key env upload sha key s fresh quiet publishes =
    elim (find_by_key-cases key s.jobs) [
      | inl free ↦
          rw (fresh, free, publishes, quiet _)
            (
              new_job env upload sha key,
              find_by_key-append key (new_job env upload sha key) s.jobs refl free,
              refl,
            )
      | inr (k, there) ↦ rw (fresh, there) (k, there, refl)
    ]

module _ (env : Surroundings) (upload : Upload) (sha : String) (s : Store) (j : Job)
    (known : find_by_key (key_of env upload sha) s.jobs ≡ some j)
    (staged : contains env.uuid4 s.staged ≡ true)
    (quiet : (t : Store) → (env.before_commit t ≡ t) × (env.before_publish_result t ≡ t))
    (publishes : env.publishes ≡ true) where
  abbrev Reuses : JobStatus → Submission × Store → Type 0
  Reuses status (answered, s') =
      (answered ≡ submission j.id true (known_status status))
      × (s'.jobs ≡ known_jobs env.now status j s.jobs)

  clash : clashes (new_job env upload sha (key_of env upload sha)) s.jobs ≡ true
  clash = ground (arith, known)

  create_job-clash :
      let key = key_of env upload sha in
      create_job env (new_job env upload sha key) key s
      ≡ (submission j.id true j.status, remove_file env.uuid4 s)
  unfolding create_job answer_clash
  create_job-clash = rw (clash, known)

  submit_existing-known :
      (status : JobStatus)
      → j.status ≡ status
      → Reuses status (submit_existing env status j upload sha (key_of env upload sha) s)
  unfolding submit_existing remove_file resubmit move_file requeue_moved dispatch_and_return
  submit_existing-known queued e = (refl, refl)
  submit_existing-known processing e = (refl, refl)
  submit_existing-known completed e = rw (quiet _).0 (refl, refl)
  submit_existing-known failed e = rw (staged, publishes, (quiet _).0, (quiet _).1) (refl, refl)
  submit_existing-known cancelled e = rw ((quiet s).0, create_job-clash, e) (refl, refl)
  submit_existing-known cancel_requested e = rw ((quiet s).0, create_job-clash, e) (refl, refl)
  submit_existing-known (other name) e = rw ((quiet s).0, create_job-clash, e) (refl, refl)

  -- Where the file is staged, the dispatcher publishes and nothing else happens meanwhile: a file
  -- whose key some job has is answered by that job, whatever its status, and no row is added. A
  -- failed job is queued again, a completed one counts the request, and any other, a cancelled one
  -- too, stays as it is.
  pub submit_staged-known :
      let (answered, s') = submit_staged env upload (staged_file sha s) in
      (answered ≡ submission j.id true (known_status j.status))
      × (s'.jobs ≡ known_jobs env.now j.status j s.jobs)
  unfolding submit_staged submit_found
  submit_staged-known = rw known (submit_existing-known j.status refl)

-- A job that has spent its attempts and is submitted again keeps its count, so its next failure with
-- an error that may be retried ends it with `max_attempts_reached`.
pub resubmit_job-last_attempt :
    (settings : Settings) (worker : String) (now claimed_at failed_at : ℕ) (failure : Failure)
    (j : Job)
    → settings.job_max_attempts ≤ j.attempt_count
    → is_retryable failure ≡ true
    → let again = claim_job settings worker claimed_at (resubmit_job now j j) in
      ((fail_job settings failed_at failure again).status ≡ failed)
      × ((fail_job settings failed_at failure again).error_code ≡ some "max_attempts_reached")
unfolding fail_job
resubmit_job-last_attempt settings worker now claimed_at failed_at failure j spent retry =
    ground arith
