-- ===== src/Jobs/Uniqueness.antt =====
-- The unique columns of `ingestion_jobs`: no two rows share an id, and no two share an idempotency key.
use agentic_soc_triage_assis.Jobs.Model.{Job, Settings}
use agentic_soc_triage_assis.Prelude.{
  List, [], none, some, false, refl, ◌≡◌, ◌∷◌, ◌++◌, if◌then◌else◌, Bool, All, any, String, if_ind,
  arith, is_some, All-append, text_equality, Option-cases, inl, inr,
}
use agentic_soc_triage_assis.Jobs.Table.{update_where, find_by_key, has_key, has_id}
use agentic_soc_triage_assis.Jobs.Rows.{UniqueIds, KeepsId, UniqueIds-update_where}
use agentic_soc_triage_assis.Jobs.Submission.{clashes}
use agentic_soc_triage_assis.Jobs.Worker.{fail_job}
use agentic_soc_triage_assis.Jobs.Recovery.{requeue_or_fail}
use agentic_soc_triage_assis.Jobs.RowRules.{IsKept}

-- The rows share a key that is not NULL.
abbrev pub shares_key : Job → Job → Bool
shares_key j k = elim j.idempotency_key [ none ↦ false | some key ↦ has_key key k ]

abbrev pub UniqueKeys : List Job → Type 0
UniqueKeys [] = Unit
UniqueKeys (j ∷ js) = All (λ k. shares_key j k ≡ false) js × UniqueKeys js

abbrev pub UniqueRows : List Job → Type 0
UniqueRows js = UniqueIds js × UniqueKeys js

abbrev KeepsKey : (Job → Job) → Type 0
KeepsKey f = (j : Job) → (f j).idempotency_key ≡ j.idempotency_key

key-updated :
    (p : Job → Bool) (f : Job → Job)
    → KeepsKey f
    → (j : Job) → (if p j then f j else j).idempotency_key ≡ j.idempotency_key
key-updated p f same j =
    if_ind (λ (k : Job). k.idempotency_key ≡ j.idempotency_key) (p j) (λ _. same j) (λ _. refl)

sharers-update_where :
    (p : Job → Bool) (f : Job → Job) (j : Job)
    → KeepsKey f
    → (js : List Job) → All (λ k. shares_key j k ≡ false) js
    → All (λ k. shares_key j k ≡ false) (update_where p f js)
unfolding update_where
sharers-update_where p f j same [] h = tt
sharers-update_where p f j same (k ∷ js) h =
    (ground (arith, key-updated p f same k), sharers-update_where p f j same js h.1)

module _ (p : Job → Bool) (f : Job → Job) (same : KeepsKey f) where
  share-All :
      (j j' : Job)
      → j'.idempotency_key ≡ j.idempotency_key
      → (js : List Job) → All (λ k. shares_key j k ≡ false) js
      → All (λ k. shares_key j' k ≡ false) js
  share-All j j' e [] h = tt
  share-All j j' e (k ∷ js) h = (ground (arith, e), share-All j j' e js h.1)

  UniqueKeys-update_where : (js : List Job) → UniqueKeys js → UniqueKeys (update_where p f js)
  unfolding update_where
  UniqueKeys-update_where [] u = tt
  UniqueKeys-update_where (j ∷ js) u = (
    share-All j (if p j then f j else j) (key-updated p f same j) (update_where p f js)
        (sharers-update_where p f j same js u.0),
    UniqueKeys-update_where js u.1,
  )

UniqueIds-append :
    (new : Job) (js : List Job)
    → any (has_id new.id) js ≡ false
    → UniqueIds js
    → UniqueIds (js ++ new ∷ [])
UniqueIds-append new [] free u = (tt, tt)
UniqueIds-append new (j ∷ js) free u = (
  All-append _ js _ u.0 (
    ground (arith, text_equality.equals_iff new.id j.id, text_equality.equals_iff j.id new.id),
    tt,
  ),
  UniqueIds-append new js (ground arith) u.1,
)

fresh_key :
    (new j : Job) (key : String)
    → new.idempotency_key ≡ some key
    → has_key key j ≡ false
    → shares_key j new ≡ false
fresh_key new j key e other = elim (Option-cases j.idempotency_key) [
  | inl none_there ↦ rw none_there
  | inr (k, there) ↦
      rw (there, e)
        (ground (
          arith,
          text_equality.equals_iff key k,
          text_equality.equals_iff k key,
          rw there at other,
        ))
]

UniqueKeys-append :
    (new : Job) (key : String) (js : List Job)
    → new.idempotency_key ≡ some key
    → is_some (find_by_key key js) ≡ false
    → UniqueKeys js
    → UniqueKeys (js ++ new ∷ [])
unfolding find_by_key
UniqueKeys-append new key [] e free u = (tt, tt)
UniqueKeys-append new key (j ∷ js) e free u = (
  All-append _ js _ u.0 (fresh_key new j key e (ground arith), tt),
  UniqueKeys-append new key js e (ground arith) u.1,
)

UniqueRows-append :
    (new : Job) (key : String) (js : List Job)
    → new.idempotency_key ≡ some key
    → clashes new js ≡ false
    → UniqueRows js
    → UniqueRows (js ++ new ∷ [])
UniqueRows-append new key js e free u =
    (UniqueIds-append new js (ground arith) u.0, UniqueKeys-append new key js e (ground arith) u.1)

UniqueRows-update_where :
    (f : Job → Job)
    → KeepsId f
    → KeepsKey f
    → (p : Job → Bool) (js : List Job) → UniqueRows js
    → UniqueRows (update_where p f js)
UniqueRows-update_where f id key p js u =
    (UniqueIds-update_where p f id js u.0, UniqueKeys-update_where p f key js u.1)

pub UniqueRows-IsKept : (settings : Settings) → IsKept settings UniqueRows
unfolding fail_job requeue_or_fail
UniqueRows-IsKept settings = record {
  at_new = λ env upload sha key js free u. UniqueRows-append _ key js refl free u;
  at_reuse = λ now read. UniqueRows-update_where _ (λ j. refl) (λ j. refl);
  at_resubmit = λ now read. UniqueRows-update_where _ (λ j. refl) (λ j. refl);
  at_publish_failure = UniqueRows-update_where _ (λ j. refl) (λ j. refl);
  at_claim = λ worker now job_id. UniqueRows-update_where _ (λ j. refl) (λ j. refl) _;
  at_complete = λ now. UniqueRows-update_where _ (λ j. refl) (λ j. refl);
  at_fail = λ now failure. UniqueRows-update_where _ (λ j. ground arith) (λ j. ground arith);
  at_recover = λ now read. UniqueRows-update_where _ (λ j. ground arith) (λ j. ground arith);
  at_mark_failed = λ error_code. UniqueRows-update_where _ (λ j. refl) (λ j. refl);
  at_cancel = λ now actor. UniqueRows-update_where _ (λ j. refl) (λ j. refl);
  at_request = λ now actor job_id. UniqueRows-update_where _ (λ j. refl) (λ j. refl) _;
  at_finalize = λ now. UniqueRows-update_where _ (λ j. refl) (λ j. refl);
}
