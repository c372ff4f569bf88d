-- ===== src/Jobs/SubmissionRules.antt =====
-- Submission keeps every row invariant that `IsKept` describes (agent/application/background_service.py).
use agentic_soc_triage_assis.Jobs.Model.{
  Settings, Job, Store, JobStatus, queued, processing, completed, failed,
}
use agentic_soc_triage_assis.Jobs.RowRules.{IsKept, Keeps}
use agentic_soc_triage_assis.Jobs.Submission.{
  Surroundings, Submission, publish_failure, dispatch_and_return, answer_clash, create_job,
  requeue_moved, submit_existing, submit_found, submit_staged, submit_file, insert_job, Upload,
  resubmit, clashes, key_of, new_job,
}
use agentic_soc_triage_assis.Jobs.Table.{move_file, remove_file, has_id, find_by_key}
use agentic_soc_triage_assis.Jobs.Staging.{
  StageResult, store_content, stage_file, input_too_large, staged_file,
}
use agentic_soc_triage_assis.Prelude.{
  String, Option, Bool, List, if_ind, ℕ, subst, false, sym, some, ◌≡◌, none, true, refl, arith,
}

module _ {settings : Settings} {T : List Job → Type 0} (kept : IsKept settings T)
    (env : Surroundings) (before : Keeps T env.before_commit)
    (meanwhile : Keeps T env.before_publish_result) where
  abbrev Leaves : Submission × Store → Type 0
  Leaves r = T r.1.jobs

  publish_failure-Keeps : (job_id : String) → Keeps T (publish_failure job_id)
  unfolding publish_failure remove_file
  publish_failure-Keeps job_id s h = kept.at_publish_failure (has_id job_id) s.jobs h

  dispatch_and_return-Leaves :
      (job_id : String) (reused : Bool) (s : Store)
      → T s.jobs
      → Leaves (dispatch_and_return env job_id reused s)
  unfolding dispatch_and_return
  dispatch_and_return-Leaves job_id reused s h =
      if_ind Leaves env.publishes (λ _. meanwhile s h)
        (λ _. publish_failure-Keeps job_id _ (meanwhile s h))

  answer_clash-Leaves :
      (j : Job) (o : Option Job) (s : Store) → T s.jobs → Leaves (answer_clash env j o s)
  unfolding answer_clash remove_file
  answer_clash-Leaves j none s h = h
  answer_clash-Leaves j (some existing) s h = h

  create_job-Leaves :
      (upload : Upload) (sha key : String) (s : Store)
      → T s.jobs
      → Leaves (create_job env (new_job env upload sha key) key s)
  unfolding create_job insert_job
  create_job-Leaves upload sha key s h =
      let j = new_job env upload sha key in
      if_ind Leaves (clashes j s.jobs) (λ _. answer_clash-Leaves j (find_by_key key s.jobs) s h)
        (λ free.
          dispatch_and_return-Leaves j.id false _ (kept.at_new env upload sha key s.jobs free h))

  requeue_moved-Leaves :
      (j : Job) (o : Option Store) (s : Store)
      → ((s' : Store) → o ≡ some s' → T s'.jobs)
      → T s.jobs
      → Leaves (requeue_moved env j o s)
  unfolding requeue_moved
  requeue_moved-Leaves j none s moved h = h
  requeue_moved-Leaves j (some s') s moved h =
      dispatch_and_return-Leaves j.id true _
        (kept.at_resubmit env.now j (has_id j.id) _ (before s' (moved s' refl)))

  move_file-Keeps :
      (src dest : String) (s s' : Store) → move_file src dest s ≡ some s' → s'.jobs ≡ s.jobs
  unfolding move_file
  move_file-Keeps src dest s s' e = ground arith

  submit_existing-Leaves :
      (status : JobStatus) (j : Job) (upload : Upload) (sha key : String) (s : Store)
      → T s.jobs
      → Leaves (submit_existing env status j upload sha key s)
  unfolding submit_existing remove_file resubmit
  submit_existing-Leaves queued j upload sha key s h = h
  submit_existing-Leaves processing j upload sha key s h = h
  submit_existing-Leaves completed j upload sha key s h =
      kept.at_reuse env.now j (has_id j.id) _ (before (remove_file env.uuid4 s) h)
  submit_existing-Leaves failed j upload sha key s h =
      requeue_moved-Leaves j _ s (λ s' e. subst T (sym (move_file-Keeps env.uuid4 j.id s s' e)) h) h
  submit_existing-Leaves _ j upload sha key s h = create_job-Leaves upload sha key _ (before s h)

  submit_found-Leaves :
      (o : Option Job) (upload : Upload) (sha key : String) (s : Store)
      → T s.jobs
      → Leaves (submit_found env o upload sha key s)
  unfolding submit_found
  submit_found-Leaves none upload sha key s h = create_job-Leaves upload sha key _ (before s h)
  submit_found-Leaves (some j) upload sha key s h =
      submit_existing-Leaves j.status j upload sha key s h

  abbrev StageLeaves : StageResult → Type 0
  StageLeaves (input_too_large s) = T s.jobs
  StageLeaves (staged_file sha s) = T s.jobs

  submit_staged-Leaves :
      (upload : Upload) (r : StageResult) → StageLeaves r → Leaves (submit_staged env upload r)
  unfolding submit_staged
  submit_staged-Leaves upload (input_too_large s) h = h
  submit_staged-Leaves upload (staged_file sha s) h =
      submit_found-Leaves (find_by_key (key_of env upload sha) s.jobs) upload sha _ s h

  store_content-Leaves :
      (content : Option (List ℕ)) (name : String) (s : Store)
      → T s.jobs
      → StageLeaves (store_content env.max_size_bytes env.sha256 content name s)
  unfolding store_content
  store_content-Leaves none name s h = h
  store_content-Leaves (some content) name s h = h

  pub submit_file-Keeps : (upload : Upload) → Keeps T (λ s. (submit_file env upload s).1)
  unfolding submit_file stage_file
  submit_file-Keeps upload s h =
      submit_staged-Leaves upload _ (store_content-Leaves _ env.uuid4 s h)
