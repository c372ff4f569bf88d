-- ===== src/Jobs/Rows.antt =====
-- What an update does to the row of one job, where the ids of the table are unique.
use agentic_soc_triage_assis.Prelude.{
  List, String, [], none, some, false, inl, inr, refl, ◌≡◌, ◌∷◌, ◌&&◌, ◌==◌, if◌then◌else◌, All,
  Bool, Option, if_ind, Bool-cases, ltb, text_equality, subst, eq_of_beq, arith,
}
use agentic_soc_triage_assis.Jobs.Model.{Job}
use agentic_soc_triage_assis.Jobs.Table.{get_job, update_where, has_id, count_where}

-- The primary key.
abbrev pub UniqueIds : List Job → Type 0
UniqueIds [] = Unit
UniqueIds (j ∷ js) = All (λ k. (k.id == j.id) ≡ false) js × UniqueIds js

-- The row that an update leaves.
abbrev pub updated : (Job → Bool) → (Job → Job) → Option Job → Option Job
updated p f none = none
updated p f (some j) = some (if p j then f j else j)

abbrev pub KeepsId : (Job → Job) → Type 0
KeepsId f = (j : Job) → (f j).id ≡ j.id

id-updated :
    (p : Job → Bool) (f : Job → Job) → KeepsId f → (j : Job) → (if p j then f j else j).id ≡ j.id
id-updated p f same j = if_ind (λ (k : Job). k.id ≡ j.id) (p j) (λ _. same j) (λ _. refl)

pub get_job-update_where :
    (p : Job → Bool) (f : Job → Job) (job_id : String)
    → KeepsId f
    → (js : List Job) → get_job job_id (update_where p f js) ≡ updated p f (get_job job_id js)
unfolding get_job update_where
get_job-update_where p f job_id same [] = refl
get_job-update_where p f job_id same (j ∷ js) =
    rw (id-updated p f same j) (elim (Bool-cases (j.id == job_id)) [
      | inl hit ↦ rw hit
      | inr miss ↦ rw miss (get_job-update_where p f job_id same js)
    ])

others-update_where :
    (p : Job → Bool) (f : Job → Job) (name : String)
    → KeepsId f
    → (js : List Job) → All (λ k. (k.id == name) ≡ false) js
    → All (λ k. (k.id == name) ≡ false) (update_where p f js)
unfolding update_where
others-update_where p f name same [] h = tt
others-update_where p f name same (j ∷ js) h =
    (rw (id-updated p f same j) h.0, others-update_where p f name same js h.1)

pub UniqueIds-update_where :
    (p : Job → Bool) (f : Job → Job)
    → KeepsId f
    → (js : List Job) → UniqueIds js
    → UniqueIds (update_where p f js)
unfolding update_where
UniqueIds-update_where p f same [] u = tt
UniqueIds-update_where p f same (j ∷ js) u = (
  rw (id-updated p f same j) (others-update_where p f j.id same js u.0),
  UniqueIds-update_where p f same js u.1,
)

module _ (job_id : String) (q : Job → Bool) where
  abbrev matching : Job → Bool
  matching j = has_id job_id j && q j

  count_where-others :
      (js : List Job) → All (λ k. (k.id == job_id) ≡ false) js → count_where matching js ≡ 0
  unfolding count_where
  count_where-others [] h = refl
  count_where-others (j ∷ js) h = rw h.0 (count_where-others js h.1)

  pub get_job-none-others :
      (js : List Job) → get_job job_id js ≡ none → All (λ k. (k.id == job_id) ≡ false) js
  unfolding get_job
  get_job-none-others [] e = tt
  get_job-none-others (j ∷ js) e = elim (Bool-cases (j.id == job_id)) [
    | inl hit ↦ absurd (cc)
    | inr miss ↦ (miss, get_job-none-others js (cc miss))
  ]

  -- The row count of an update by id tells whether the row passes the other test.
  pub count_where-row :
      (js : List Job) {j : Job}
      → UniqueIds js
      → get_job job_id js ≡ some j
      → ltb 0 (count_where matching js) ≡ q j
  unfolding get_job count_where
  count_where-row [] u e = absurd (cc)
  count_where-row (k ∷ js) {j} u e = elim (Bool-cases (k.id == job_id)) [
    | inl hit ↦
        let none_left = count_where-others js (
          subst (λ n. All (λ (m : Job). (m.id == n) ≡ false) js) (eq_of_beq k.id job_id hit) u.0) in
        ground (arith, none_left)
    | inr miss ↦ rw miss (count_where-row js u.1 (cc miss))
  ]

  pub count_where-absent :
      (js : List Job) → get_job job_id js ≡ none → ltb 0 (count_where matching js) ≡ false
  count_where-absent js e = rw (count_where-others js (get_job-none-others js e))
