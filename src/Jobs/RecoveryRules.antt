-- ===== src/Jobs/RecoveryRules.antt =====
-- Lease recovery keeps every row invariant that `IsKept` describes, whatever other processes commit
-- between its rounds and before its commit.
use agentic_soc_triage_assis.Jobs.Model.{Job, JobStatus, cancel_requested, Store, Settings}
use agentic_soc_triage_assis.Jobs.RowRules.{IsKept, Keeps, finalize-Keeps, remove_file-Keeps}
use agentic_soc_triage_assis.Jobs.Recovery.{
  may_retry, recover_status, recover_each, recover_stale_jobs, is_stale, write_recovered,
  commit_recovered,
}
use agentic_soc_triage_assis.Jobs.Table.{has_id}
use agentic_soc_triage_assis.Prelude.{if_ind, filter, List, ℕ, ◌∷◌, []}

module _ {settings : Settings} {T : List Job → Type 0} (kept : IsKept settings T) where
  module _ (now : ℕ) where
    recover_status-Keeps :
        (status : JobStatus) (read : Job) → Keeps T (recover_status settings now status read)
    unfolding recover_status
    recover_status-Keeps cancel_requested read s h = finalize-Keeps kept now read.id s h
    recover_status-Keeps _ read s h =
        if_ind (λ (s' : Store). T s'.jobs) (may_retry settings now read) (λ _. h)
          (λ _. remove_file-Keeps kept read.id s h)

    write_recovered-Keeps :
        (status : JobStatus) (read : Job) → Keeps T (write_recovered settings now status read)
    unfolding write_recovered
    write_recovered-Keeps cancel_requested read s h = h
    write_recovered-Keeps _ read s h = kept.at_recover now read (has_id read.id) s.jobs h

    commit_recovered-Keeps : (reads : List Job) → Keeps T (commit_recovered settings now reads)
    unfolding commit_recovered
    commit_recovered-Keeps [] s h = h
    commit_recovered-Keeps (read ∷ reads) s h =
        commit_recovered-Keeps reads _ (write_recovered-Keeps read.status read s h)

    module _ (before_round : Job → Store → Store) (before_commit : Store → Store)
        (round : (read : Job) → Keeps T (before_round read)) (commit : Keeps T before_commit) where
      recover_each-Keeps :
          (reads : List Job) → Keeps T (recover_each settings now before_round before_commit reads)
      unfolding recover_each
      recover_each-Keeps [] s h = h
      recover_each-Keeps (read ∷ reads) s h =
          recover_each-Keeps reads _ (recover_status-Keeps read.status read _ (round read s h))

      pub recover_stale_jobs-Keeps :
          Keeps T (λ s. (recover_stale_jobs settings now before_round before_commit s).1)
      unfolding recover_stale_jobs
      recover_stale_jobs-Keeps s h =
          commit_recovered-Keeps (filter (is_stale now) s.jobs) _
            (commit _ (recover_each-Keeps (filter (is_stale now) s.jobs) s h))
