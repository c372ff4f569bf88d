-- ===== src/Jobs/Activity.antt =====
-- What clients, workers and recoveries do to the database, in any order and nested: other activities
-- happen between the transactions of a run, of a submission or of a recovery, and between the reads of
-- the last two and their commits. `look_up` is the row that a dispatched worker has read, then or
-- earlier. The analysis writes the row only to mark a failure (`failing`). The synchronous path of
-- `analyze_file` is not an activity, and the failure handler of a run is one step.
use agentic_soc_triage_assis.Jobs.Model.{Settings, Store, Job}
use agentic_soc_triage_assis.Prelude.{[], List, All, String, ℕ, Bool, Option}
use agentic_soc_triage_assis.Jobs.Submission.{Surroundings, Upload, submit_file}
use agentic_soc_triage_assis.Jobs.Uniqueness.{UniqueRows, UniqueRows-IsKept}
use agentic_soc_triage_assis.Jobs.RowRules.{
  IsKept, Keeps, run_once-Keeps, cancel-Keeps, process_row-Leaves, mark_analysis_failed-Keeps,
}
use agentic_soc_triage_assis.Jobs.RecoveryRules.{recover_stale_jobs-Keeps}
use agentic_soc_triage_assis.Jobs.Invariant.{IsRegular, IsRegular-IsKept}
use agentic_soc_triage_assis.Jobs.SubmissionRules.{submit_file-Keeps}
use agentic_soc_triage_assis.Jobs.Worker.{Meanwhile, run_once, process_row, mark_analysis_failed}
use agentic_soc_triage_assis.Jobs.Recovery.{recover_stale_jobs}
use agentic_soc_triage_assis.Jobs.Cancellation.{cancel}

pub data Activity (settings : Settings) : (Store → Store) → Type 0 where
  idle : Activity settings (λ s. s)
  chain :
      {f g : Store → Store}
      → Activity settings f
      → Activity settings g
      → Activity settings (λ s. g (f s))
  submitting :
      (env : Surroundings) (upload : Upload)
      → Activity settings env.before_commit
      → Activity settings env.before_publish_result
      → Activity settings (λ s. (submit_file env upload s).1)
  polling :
      (worker : String) (now : ℕ) (env : Meanwhile) (nulls_first : Bool)
      → Activity settings env.before_checkpoint
      → Activity settings (λ s. (env.during_analysis s).1)
      → Activity settings (λ s. (run_once settings worker now env nulls_first s).1)
  dispatched :
      (worker : String) (now : ℕ) (job_id : String) (env : Meanwhile) (look_up : Store → Option Job)
      → Activity settings env.before_checkpoint
      → Activity settings (λ s. (env.during_analysis s).1)
      → Activity settings (λ s. (process_row settings worker now job_id env (look_up s) s).1)
  failing :
      (error_code job_id : String) → Activity settings (mark_analysis_failed error_code job_id)
  recovering :
      (now : ℕ) (before_round : Job → Store → Store) (before_commit : Store → Store)
      → ((read : Job) → Activity settings (before_round read))
      → Activity settings before_commit
      → Activity settings (λ s. (recover_stale_jobs settings now before_round before_commit s).1)
  cancelling :
      (now : ℕ) (actor_type actor : String) (request : Option String) (job_id : String)
      → Activity settings (λ s. (cancel now actor_type actor request job_id s).1)

-- Every activity keeps an invariant that every write keeps.
pub Activity-Keeps :
    (settings : Settings) (T : List Job → Type 0)
    → IsKept settings T
    → {f : Store → Store} → Activity settings f
    → Keeps T f
Activity-Keeps settings T kept idle s h = h
Activity-Keeps settings T kept (chain a b) s h =
    Activity-Keeps settings T kept b _ (Activity-Keeps settings T kept a s h)
Activity-Keeps settings T kept (submitting env upload a b) s h =
    submit_file-Keeps kept env (Activity-Keeps settings T kept a) (Activity-Keeps settings T kept b)
      upload s h
Activity-Keeps settings T kept (polling worker now env nulls_first a b) s h =
    run_once-Keeps kept env (Activity-Keeps settings T kept a) (Activity-Keeps settings T kept b)
      worker now nulls_first s h
Activity-Keeps settings T kept (dispatched worker now job_id env look_up a b) s h =
    process_row-Leaves kept env (Activity-Keeps settings T kept a)
      (Activity-Keeps settings T kept b) worker now job_id (look_up s) s h
Activity-Keeps settings T kept (failing error_code job_id) s h =
    mark_analysis_failed-Keeps kept error_code job_id s h
Activity-Keeps settings T kept (recovering now before_round before_commit a b) s h =
    recover_stale_jobs-Keeps kept now before_round before_commit
      (λ read. Activity-Keeps settings T kept (a read)) (Activity-Keeps settings T kept b) s h
Activity-Keeps settings T kept (cancelling now actor_type actor request job_id) s h =
    cancel-Keeps kept now actor_type actor request job_id s h

abbrev pub empty_store : Store
empty_store = record { jobs = []; audit_events = []; staged = [] }

-- From an empty database, after submissions, polls, dispatches, recoveries, cancellations and failure
-- marks of the analysis, in any order and interleaved as `Activity` says, the synchronous path of
-- `analyze_file` left out: a job that is processed or whose cancellation is requested has a start and a
-- lease, so that recovery can find it; a lease has its worker and a counted attempt; a requested
-- cancellation has its time and actor; a cancelled row has its time and is free of worker, lease and
-- retry; a completed one has its time and is free of lease and retry.
pub Activity-IsRegular :
    (settings : Settings) (f : Store → Store)
    → Activity settings f
    → All IsRegular (f empty_store).jobs
Activity-IsRegular settings f a =
    Activity-Keeps settings (All IsRegular) (IsRegular-IsKept settings) a empty_store tt

-- From an empty database, after any activity, no two jobs share an id or an idempotency key.
pub Activity-UniqueRows :
    (settings : Settings) (f : Store → Store)
    → Activity settings f
    → UniqueRows (f empty_store).jobs
Activity-UniqueRows settings f a =
    Activity-Keeps settings UniqueRows (UniqueRows-IsKept settings) a empty_store (tt, tt)
