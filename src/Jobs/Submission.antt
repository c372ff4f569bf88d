-- ===== src/Jobs/Submission.antt =====
-- agent/application/background_service.py and the key of agent/application/idempotency.py.
-- Parameters: the digests, the new uuid, what other processes commit between the look-up of the key
-- and the commit of the row, and whether the dispatcher could publish.
use agentic_soc_triage_assis.Prelude.{
  none, Option, ◌||◌, false, text_equality, Bool, true, List, any, if◌then◌else◌, ℕ, ◌+◌, some,
  is_some, ◌∷◌, ◌==◌, String, [], ◌++◌, ◌<>◌,
}
use agentic_soc_triage_assis.Jobs.Model.{
  Job, JobStatus, queued, processing, completed, failed, Store,
}
use agentic_soc_triage_assis.Jobs.Table.{update_where, has_id, find_by_key, remove_file, move_file}
use agentic_soc_triage_assis.Jobs.Staging.{staged_file, input_too_large, stage_file, StageResult}

-- The text that `compute_idempotency_key` hashes.
abbrev pub idempotency_text :
    (file_sha256 pipeline_version analysis_mode correlation_mode : String) → String
idempotency_text file_sha256 pipeline_version analysis_mode correlation_mode =
    let text = file_sha256 <> ":" <> pipeline_version <> ":" <> analysis_mode in
    if correlation_mode == "configured" then text else text <> ":" <> correlation_mode

abbrev pub compute_idempotency_key :
    (String → String) → (sha version mode correlation : String) → String
compute_idempotency_key digest sha version mode correlation =
    digest (idempotency_text sha version mode correlation)

-- `submit_file` returns `(job_id, reused, status)`.
pub data Submission : Type 0 where
  submission : (job_id : String) (reused : Bool) (status : JobStatus) → Submission
  upload_too_large staging_error integrity_error : Submission
  queue_publish_failed : (job_id : String) → Submission

-- What the caller hands in.
pub record Upload : Type 0 where
  pub stream : List (List ℕ)
  pub original_filename : String
  pub source_name : String
  pub pipeline_version : String
  pub analysis_mode : String

-- The code below the service, and the world around it.
pub record Surroundings : Type 0 where
  pub max_size_bytes : ℕ
  pub sha256 : List ℕ → String
  pub digest : String → String
  pub uuid4 : String
  pub now : ℕ
  pub before_commit : Store → Store
  pub before_publish_result : Store → Store
  pub publishes : Bool

abbrev pub new_job : Surroundings → Upload → (file_sha256 key : String) → Job
new_job env upload file_sha256 key = record {
  id = env.uuid4;
  idempotency_key = some key;
  source_name = upload.source_name;
  original_filename = some upload.original_filename;
  file_sha256 = some file_sha256;
  pipeline_version = some upload.pipeline_version;
  analysis_mode = some upload.analysis_mode;
  status = queued;
  error_code = none;
  reused_count = 0;
  last_requested_at = none;
  queued_at = some env.now;
  started_at = none;
  completed_at = none;
  attempt_count = 0;
  worker_id = none;
  next_retry_at = none;
  lease_expires_at = none;
  last_attempt_at = none;
  cancel_requested_at = none;
  cancelled_at = none;
  cancel_reason_code = none;
  cancel_requested_by = none;
}

-- A finished job that is asked for again, and a failed one that goes back into the queue: the count
-- goes up from that of the row as the look-up has read it.
abbrev pub reuse_job : ℕ → (read : Job) → Job → Job
reuse_job now read j = record j {
  reused_count = read.reused_count + 1;
  last_requested_at = some now;
}

abbrev pub resubmit_job : ℕ → (read : Job) → Job → Job
resubmit_job now read j = record j {
  status = queued;
  error_code = none;
  queued_at = some now;
  reused_count = read.reused_count + 1;
  last_requested_at = some now;
}

-- The unique columns of the table (agent/persistence/orm_models.py) refuse the row.
abbrev pub clashes : Job → List Job → Bool
clashes j js =
    any (has_id j.id) js
    || elim j.idempotency_key [ none ↦ false | some k ↦ is_some (find_by_key k js) ]

unfoldable pub insert_job : Job → Store → Store
insert_job j s = record s { jobs = s.jobs ++ j ∷ [] }

-- `_dispatch_and_return` after a failed publication, whatever the row has become meanwhile.
abbrev pub publish_failed_job : Job → Job
publish_failed_job j = record j { status = failed; error_code = some "queue_publish_failed" }

unfoldable pub publish_failure : String → Store → Store
publish_failure job_id s =
    remove_file job_id (record s { jobs = update_where (has_id job_id) publish_failed_job s.jobs })

module _ (env : Surroundings) where
  unfoldable pub dispatch_and_return : String → Bool → Store → Submission × Store
  dispatch_and_return job_id reused s =
      let s' = env.before_publish_result s in
      if env.publishes
      then (submission job_id reused queued, s')
      else (queue_publish_failed job_id, publish_failure job_id s')

  -- The insert, and the answer to an IntegrityError: the row that has the key by now.
  unfoldable pub answer_clash : Job → Option Job → Store → Submission × Store
  answer_clash j none s = (integrity_error, s)
  answer_clash j (some existing) s =
      (submission existing.id true existing.status, remove_file j.id s)

  unfoldable pub create_job : Job → (key : String) → Store → Submission × Store
  create_job j key s =
      if clashes j s.jobs
      then answer_clash j (find_by_key key s.jobs) s
      else dispatch_and_return j.id false (insert_job j s)

  unfoldable pub requeue_moved : Job → Option Store → Store → Submission × Store
  requeue_moved j none s = (staging_error, s)
  requeue_moved j (some s') s =
      let t = env.before_commit s' in
      dispatch_and_return j.id true
        (record t { jobs = update_where (has_id j.id) (resubmit_job env.now j) t.jobs })

  unfoldable pub resubmit : Job → Store → Submission × Store
  resubmit j s = requeue_moved j (move_file env.uuid4 j.id s) s

  -- The row that already has the key, by its status.
  unfoldable pub submit_existing :
      JobStatus → Job → Upload → (file_sha256 key : String) → Store → Submission × Store
  submit_existing queued j upload sha key s = (submission j.id true queued, remove_file env.uuid4 s)
  submit_existing processing j upload sha key s =
      (submission j.id true processing, remove_file env.uuid4 s)
  submit_existing completed j upload sha key s = (
    submission j.id true completed,
    let s' = env.before_commit (remove_file env.uuid4 s) in
        record s' { jobs = update_where (has_id j.id) (reuse_job env.now j) s'.jobs },
  )
  submit_existing failed j upload sha key s = resubmit j s
  submit_existing status j upload sha key s =
      create_job (new_job env upload sha key) key (env.before_commit s)

  unfoldable pub submit_found :
      Option Job → Upload → (file_sha256 key : String) → Store → Submission × Store
  submit_found none upload sha key s =
      create_job (new_job env upload sha key) key (env.before_commit s)
  submit_found (some j) upload sha key s = submit_existing j.status j upload sha key s

  abbrev pub key_of : Upload → (file_sha256 : String) → String
  key_of upload sha =
      compute_idempotency_key env.digest sha upload.pipeline_version upload.analysis_mode
        "configured"

  unfoldable pub submit_staged : Upload → StageResult → Submission × Store
  submit_staged upload (input_too_large s) = (upload_too_large, s)
  submit_staged upload (staged_file sha s) =
      let key = key_of upload sha in submit_found (find_by_key key s.jobs) upload sha key s

  unfoldable pub submit_file : Upload → Store → Submission × Store
  submit_file upload s =
      submit_staged upload (stage_file env.max_size_bytes env.sha256 upload.stream env.uuid4 s)
