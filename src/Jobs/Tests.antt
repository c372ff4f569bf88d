-- ===== src/Jobs/Tests.antt =====
-- Concrete jobs, uploads and stories: the theorems on them, and tests of the definitions.
use agentic_soc_triage_assis.Jobs.Model.{
  Settings, JobStatus, Job, Store, processing, queued, other, cancelled, failed,
}
use agentic_soc_triage_assis.Jobs.Submission.{
  Upload, Surroundings, submit_file, submit_staged, submit_found, resubmit_job, key_of, submission,
  create_job, insert_job, dispatch_and_return, new_job,
}
use agentic_soc_triage_assis.Jobs.Worker.{
  Meanwhile, finish_run, process_job, claim_job, work_done, work_failed, claim, run_completed,
  run_once, run_cancelled, provider_timeout, ignored, complete_job, run_retry, fail_job, run_next,
  next_job, process_row, process_status, run_claimed, run_failed,
}
use agentic_soc_triage_assis.Jobs.Table.{
  get_job, find_by_key, count_where, update_where, remove_file,
}
use agentic_soc_triage_assis.Jobs.Activity.{
  Activity, chain, empty_store, submitting, Activity-IsRegular, idle, polling, cancelling,
  recovering,
}
use agentic_soc_triage_assis.Prelude.{
  All, List, [], none, some, true, refl, ◌≡◌, ◌∷◌, arith, ℕ, is_some, false, ◌⊎◌, contains,
  text_equality,
}
use agentic_soc_triage_assis.Jobs.Cancellation.{
  cancel, finalize_job, request_cancellation, cancel_queued, cancel_processing, raise_if_cancelled,
  is_cancel_pending, finalize, finalize_requested, add_audit_event, answer, cancellation_of,
}
use agentic_soc_triage_assis.Jobs.Staging.{stage_file, staged_file, store_content, read_chunks}
use agentic_soc_triage_assis.Jobs.Rows.{UniqueIds}
use agentic_soc_triage_assis.Jobs.Recovery.{recover_stale_jobs, recover_each, commit_recovered}
use agentic_soc_triage_assis.Jobs.Invariant.{IsRegular}
use agentic_soc_triage_assis.Jobs.Cancelling.{cancel_answer, cancelled_row, cancel_lem}
use agentic_soc_triage_assis.Jobs.Uploads.{stage_file-eq}
use agentic_soc_triage_assis.Jobs.Outcomes.{
  claim-process_job, process_job-completes, cancel-finish_run_retry, cancel-finish_run,
}
use agentic_soc_triage_assis.Jobs.Reuse.{
  submit_staged-known, resubmit_job-last_attempt, create_job-find_by_key,
}
use agentic_soc_triage_assis.Jobs.Retrying.{IsReleased, IsRetried, IsEnded, finish_run-IsHandled}

abbrev test_settings : Settings
test_settings = record {
  job_max_attempts = 3;
  job_retry_base_seconds = 5;
  job_retry_max_seconds = 60;
  job_processing_lease_seconds = 300;
}

abbrev upload : Upload
upload = record {
  stream = (1 ∷ 2 ∷ []) ∷ (3 ∷ []) ∷ [];
  original_filename = "fw.log";
  source_name = "firewall";
  pipeline_version = "v2";
  analysis_mode = "full";
}

abbrev env : Surroundings
env = record {
  max_size_bytes = 100;
  sha256 = λ bytes. "digest";
  digest = λ t. t;
  uuid4 = "job-1";
  now = 1000;
  before_commit = λ s. s;
  before_publish_result = λ s. s;
  publishes = true;
}

abbrev quiet : Meanwhile
quiet = record { before_checkpoint = λ s. s; during_analysis = λ s. (work_done, s) }

abbrev job_in : JobStatus → (attempt_count : ℕ) → Job
job_in status attempt_count = record {
  id = "job-1";
  idempotency_key = some "digest:v2:full";
  source_name = "firewall";
  original_filename = some "fw.log";
  file_sha256 = some "digest";
  pipeline_version = some "v2";
  analysis_mode = some "full";
  status = status;
  error_code = none;
  reused_count = 0;
  last_requested_at = none;
  queued_at = some 1000;
  started_at = none;
  completed_at = none;
  attempt_count = attempt_count;
  worker_id = none;
  next_retry_at = none;
  lease_expires_at = none;
  last_attempt_at = none;
  cancel_requested_at = none;
  cancelled_at = none;
  cancel_reason_code = none;
  cancel_requested_by = none;
}

abbrev running : Job
running = job_in processing 1

abbrev waiting : Job
waiting = job_in queued 0

-- The table with this job only, its file staged.
abbrev store_of : Job → Store
store_of j = record { jobs = j ∷ []; audit_events = []; staged = "job-1" ∷ "job-2" ∷ [] }

single-UniqueIds : (j : Job) → UniqueIds (j ∷ [])
single-UniqueIds j = (tt, tt)

found_job :
    (status : JobStatus) (n : ℕ)
    → get_job "job-1" (store_of (job_in status n)).jobs ≡ some (job_in status n)
unfolding get_job
found_job status n = refl

-- Submitted, polled by a worker while a client asks for a stop, recovered.
abbrev interrupted : Meanwhile
interrupted = record {
  before_checkpoint = λ s. (cancel 2500 "user" "alice" none "job-1" s).1;
  during_analysis = λ s. (work_done, s);
}

abbrev story : Store → Store
story s =
    (recover_stale_jobs test_settings 4000 (λ read s. s) (λ s. s)
      (run_once test_settings "w1" 2000 interrupted true (submit_file env upload s).1).1).1

story-Activity : Activity test_settings story
story-Activity =
    chain
      (chain (submitting env upload idle idle)
        (polling "w1" 2000 interrupted true (cancelling 2500 "user" "alice" none "job-1") idle))
      (recovering 4000 (λ read s. s) (λ s. s) (λ read. idle) idle)

Activity-IsRegular_example : All IsRegular (story empty_store).jobs
Activity-IsRegular_example = Activity-IsRegular test_settings story story-Activity

-- The status of the only job at the end of the story.
abbrev first_status : List Job → JobStatus
first_status [] = other "none"
first_status (j ∷ js) = j.status

story_test : first_status (story empty_store).jobs ≡ cancelled
unfolding submit_file submit_staged submit_found stage_file store_content read_chunks find_by_key
    create_job insert_job dispatch_and_return run_once run_next next_job process_job process_row
    process_status claim count_where update_where get_job cancel cancel_queued cancel_processing
    run_claimed raise_if_cancelled is_cancel_pending finalize finalize_requested add_audit_event
    remove_file recover_stale_jobs recover_each commit_recovered answer cancellation_of
story_test = refl

cancel_lem_example :
    let (answered, s') = cancel 5000 "user" "alice" none "job-1" (store_of running) in
    (answered ≡ cancel_answer 5000 processing running)
    × (get_job "job-1" s'.jobs ≡ some (cancelled_row 5000 "alice" processing running))
cancel_lem_example =
    cancel_lem 5000 "user" "alice" none "job-1" (store_of running) running
      (single-UniqueIds running) (found_job processing 1)

cancel-finish_run_example :
    let (result, s') =
      finish_run test_settings 6000 "job-1" work_done
        (cancel 5000 "user" "alice" none "job-1" (store_of running)).1 in
    (result ≡ run_cancelled)
    × (get_job "job-1" s'.jobs
        ≡ some (finalize_job 6000 (request_cancellation 5000 "alice" running)))
cancel-finish_run_example =
    cancel-finish_run 5000 "user" "alice" none "job-1" (store_of running) running
      (single-UniqueIds running) (found_job processing 1) refl test_settings 6000

cancel-finish_run_retry_example :
    let (result, s') =
      finish_run test_settings 6000 "job-1"
        (work_failed provider_timeout)
        (cancel 5000 "user" "alice" none "job-1" (store_of running)).1 in
    (result ≡ run_retry) × ((k : Job) × (get_job "job-1" s'.jobs ≡ some k) × (k.status ≡ queued))
cancel-finish_run_retry_example =
    cancel-finish_run_retry 5000 "user" "alice" none "job-1" (store_of running) running
      (single-UniqueIds running) (found_job processing 1) refl test_settings 6000 provider_timeout
      refl (omega arith)

claim-process_job_example :
    let claimed = claim test_settings "w1" 2000 "job-1" (store_of waiting) in
    (process_row test_settings "w2" 3000 "job-1" quiet
        (get_job "job-1" (store_of waiting).jobs)
        claimed
      ≡ (ignored, claimed))
    × (process_job test_settings "w2" 3000 "job-1" quiet claimed ≡ (ignored, claimed))
claim-process_job_example =
    claim-process_job test_settings "w1" 2000 "job-1" quiet (store_of waiting) waiting
      (single-UniqueIds waiting) (found_job queued 0) refl "w2" 3000 quiet

process_job-completes_example :
    let (result, s') = process_job test_settings "w1" 2000 "job-1" quiet (store_of waiting) in
    (result ≡ run_completed)
    × (get_job "job-1" s'.jobs
        ≡ some (complete_job 2000 (claim_job test_settings "w1" 2000 waiting)))
process_job-completes_example =
    process_job-completes test_settings "w1" 2000 "job-1" quiet (store_of waiting) waiting
      (single-UniqueIds waiting) (found_job queued 0) refl refl (λ t. refl) (λ t. refl)

finish_run-IsHandled_example :
    let (result, s') =
      finish_run test_settings 6000 "job-1" (work_failed provider_timeout) (store_of running) in
    (k : Job) × (get_job "job-1" s'.jobs ≡ some k)
    × IsReleased running k
    × (((result ≡ run_retry)
          × IsRetried test_settings 6000 provider_timeout running k
          × (s'.staged ≡ (store_of running).staged))
        ⊎ ((result ≡ run_failed)
            × IsEnded test_settings provider_timeout running k
            × (contains "job-1" s'.staged ≡ false)))
finish_run-IsHandled_example =
    finish_run-IsHandled test_settings 6000 "job-1" (store_of running) running
      (single-UniqueIds running) (found_job processing 1) provider_timeout

-- The same upload again, under a new id.
abbrev env_again : Surroundings
env_again = record env { uuid4 = "job-2" }

known_job :
    (status : JobStatus) (n : ℕ)
    → find_by_key (key_of env_again upload "digest") (store_of (job_in status n)).jobs
      ≡ some (job_in status n)
unfolding find_by_key
known_job status n = refl

create_job-find_by_key_example :
    let (answered, s') =
      create_job env_again
        (new_job env_again upload "digest" "digest:v2:full")
        "digest:v2:full"
        (store_of waiting) in
    (k : Job) × (find_by_key "digest:v2:full" s'.jobs ≡ some k)
    × (answered
        ≡ submission k.id (is_some (find_by_key "digest:v2:full" (store_of waiting).jobs)) k.status)
create_job-find_by_key_example =
    create_job-find_by_key env_again upload "digest" "digest:v2:full" (store_of waiting) refl
      (λ t. refl) refl

submit_staged-known_example :
    let (answered, s') =
      submit_staged env_again upload (staged_file "digest" (store_of (job_in cancelled 0))) in
    (answered ≡ submission "job-1" true cancelled) × (s'.jobs ≡ job_in cancelled 0 ∷ [])
submit_staged-known_example =
    submit_staged-known env_again upload "digest" (store_of (job_in cancelled 0))
      (job_in cancelled 0) (known_job cancelled 0) refl (λ t. (refl, refl)) refl

resubmit_job-last_attempt_example :
    let again =
      claim_job test_settings "w1" 3000 (resubmit_job 2000 (job_in failed 3) (job_in failed 3)) in
    ((fail_job test_settings 4000 provider_timeout again).status ≡ failed)
    × ((fail_job test_settings 4000 provider_timeout again).error_code
        ≡ some "max_attempts_reached")
resubmit_job-last_attempt_example =
    resubmit_job-last_attempt test_settings "w1" 2000 3000 4000 provider_timeout (job_in failed 3)
      (omega arith) refl

stage_file-eq_example :
    stage_file 100 (λ bytes. "digest") ((1 ∷ 2 ∷ []) ∷ (3 ∷ []) ∷ []) "job-1" empty_store
    ≡ staged_file "digest" (record empty_store { staged = "job-1" ∷ [] })
stage_file-eq_example =
    stage_file-eq 100 (λ bytes. "digest") ((1 ∷ 2 ∷ []) ∷ (3 ∷ []) ∷ []) "job-1" empty_store
      ((λ e. cc e), ((λ e. cc e), tt))
