-- ===== src/Jobs/Table.antt =====
-- The queries of the queue on the table of jobs: `SELECT ... WHERE`, and `UPDATE ... WHERE` with its
-- row count, and the staging directory of agent/application/staging.py.
use agentic_soc_triage_assis.Prelude.{
  text_equality, ℕ, suc, ◌≡◌, String, Bool, true, false, not, ◌||◌, subst, Option, none, some, List,
  [], ◌∷◌, ◌==◌, All, filter, contains, if◌then◌else◌, Bool-cases, inl, inr,
}
use agentic_soc_triage_assis.Jobs.Model.{Job, Store}

-- The rows after an update of those that pass the test.
unfoldable pub update_where : (Job → Bool) → (Job → Job) → List Job → List Job
update_where p f [] = []
update_where p f (j ∷ js) = (if p j then f j else j) ∷ update_where p f js

-- The row count that an update reports.
unfoldable pub count_where : (Job → Bool) → List Job → ℕ
count_where p [] = 0
count_where p (j ∷ js) = let rest = count_where p js in if p j then suc rest else rest

abbrev pub has_id : String → Job → Bool
has_id job_id j = j.id == job_id

-- `session.get(IngestionJob, job_id)`.
unfoldable pub get_job : String → List Job → Option Job
get_job job_id [] = none
get_job job_id (j ∷ js) = if has_id job_id j then some j else get_job job_id js

-- `query(IngestionJob).filter_by(idempotency_key=key).first()`.
abbrev pub has_key : String → Job → Bool
has_key key j = elim j.idempotency_key [ none ↦ false | some k ↦ k == key ]

unfoldable pub find_by_key : String → List Job → Option Job
find_by_key key [] = none
find_by_key key (j ∷ js) = if has_key key j then some j else find_by_key key js

-- A row invariant survives an update that keeps it on the rows it writes.
pub All-update_where :
    (P : Job → Type 0) (p : Job → Bool) (f : Job → Job)
    → ((j : Job) → p j ≡ true → P j → P (f j))
    → (js : List Job) → All P js
    → All P (update_where p f js)
unfolding update_where
All-update_where P p f keep [] h = tt
All-update_where P p f keep (j ∷ js) h = elim (Bool-cases (p j)) [
  | inl hit ↦ rw hit (keep j hit h.0, All-update_where P p f keep js h.1)
  | inr miss ↦ rw miss (h.0, All-update_where P p f keep js h.1)
]

pub All-get_job :
    (P : Job → Type 0) (job_id : String) (js : List Job) {j : Job}
    → All P js
    → get_job job_id js ≡ some j
    → P j
unfolding get_job
All-get_job P job_id [] h e = absurd (cc)
All-get_job P job_id (x ∷ js) {j} h e = elim (Bool-cases (has_id job_id x)) [
  | inl hit ↦ subst P (cc hit) h.0
  | inr miss ↦ All-get_job P job_id js h.1 (cc miss)
]

-- A file is staged under the id of its job.
unfoldable pub remove_file : String → Store → Store
remove_file job_id s = record s { staged = filter (λ name. not (name == job_id)) s.staged }

-- `none` is a StagingError: there is no such file.
unfoldable pub move_file : String → String → Store → Option Store
move_file src dest s =
    if contains src s.staged
    then some
        (record s { staged = dest ∷ filter (λ name. not (name == src || name == dest)) s.staged })
    else none
