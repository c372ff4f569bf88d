-- ===== src/Persistence/Outbox.antt =====
-- `SearchIndexOutboxRepository.claim_batch` of agent/persistence/outbox_repository.py. Times are numbers
-- of microseconds; a statement reads and writes the list of rows. Python's `strip` and `len` on the
-- claimant's id are parameters.
use agentic_soc_triage_assis.Prelude.{
  String, ℕ, Bool, List, Option, [], none, some, true, false, ◌∷◌, ◌+◌, ◌*◌, ◌&&◌, ◌||◌, ◌==◌,
  if◌then◌else◌, leb, not_after, map, take, contains, sort_by, filter, ltb, text_equality, is_none,
  then_by, is_empty, not, compare_text,
}
use Prim.Native.Nat.{compare}

pub data OutboxStatus : Type 0 where
  pending processing retry completed failed : OutboxStatus

-- The columns that a claim reads or writes, and the key.
pub record OutboxRow : Type 0 where
  pub outbox_id : String
  pub deduplication_key : String
  pub status : OutboxStatus
  pub available_at : ℕ
  pub attempt_count : ℕ
  pub lease_owner : Option String
  pub lease_expires_at : Option ℕ
  pub created_at : ℕ
  pub updated_at : ℕ

-- The settings of the repository that a claim reads.
pub record OutboxSettings : Type 0 where
  pub max_claim_batch_size : ℕ
  pub max_lease_seconds : ℕ

pub data ClaimError : Type 0 where
  claimant_id_invalid claimant_id_too_long claim_limit_invalid lease_seconds_invalid : ClaimError

abbrev pub max_claimant_id_length : ℕ
max_claimant_id_length = 64

-- `status.in_(CLAIMABLE_STATUSES)`.
abbrev pub is_claimable_status : OutboxStatus → Bool
is_claimable_status pending = true
is_claimable_status retry = true
is_claimable_status _ = false

abbrev pub is_being_processed : OutboxStatus → Bool
is_being_processed processing = true
is_being_processed _ = false

-- `lease_expires_at <= now`, which is not true of NULL.
abbrev pub has_expired : (now : ℕ) → Option ℕ → Bool
has_expired now none = false
has_expired now (some expires_at) = leb expires_at now

unfoldable pub is_claim_candidate : (now : ℕ) → OutboxRow → Bool
is_claim_candidate now row =
    let available =
      is_claimable_status row.status
      && (leb row.available_at now
          && (is_none row.lease_owner || has_expired now row.lease_expires_at)) in
    let expired_processing =
      is_being_processed row.status && has_expired now row.lease_expires_at in
    available || expired_processing

-- `order_by(created_at.asc(), outbox_id.asc())`.
abbrev pub row_not_after : OutboxRow → OutboxRow → Bool
row_not_after a b =
    not_after (then_by (compare a.created_at b.created_at) (compare_text a.outbox_id b.outbox_id))

abbrev pub outbox_ids : List OutboxRow → List String
outbox_ids rows = map (λ (row : OutboxRow). row.outbox_id) rows

unfoldable pub claim_candidates : (now limit : ℕ) → List OutboxRow → List String
unfolding is_claim_candidate
claim_candidates now limit rows =
    outbox_ids (take limit (sort_by row_not_after (filter (is_claim_candidate now) rows)))

-- `.values(...)` of the update.
unfoldable pub claim_row : (claimant_id : String) → (now expires_at : ℕ) → OutboxRow → OutboxRow
claim_row claimant_id now expires_at row = record row {
  status = processing;
  lease_owner = some claimant_id;
  lease_expires_at = some expires_at;
  attempt_count = row.attempt_count + 1;
  updated_at = now;
}

unfoldable pub update_rows :
    (ids : List String) → (OutboxRow → OutboxRow) → List OutboxRow → List OutboxRow
update_rows ids change [] = []
update_rows ids change (row ∷ rows) =
    (if contains row.outbox_id ids then change row else row) ∷ update_rows ids change rows

abbrev pub is_owned_by : (claimant_id : String) → Option String → Bool
is_owned_by claimant_id none = false
is_owned_by claimant_id (some owner) = owner == claimant_id

-- The rows of the last query.
unfoldable pub claimed_rows :
    (claimant_id : String) → (claimed_ids : List String) → List OutboxRow → List OutboxRow
claimed_rows claimant_id claimed_ids rows = sort_by row_not_after (
    filter
      (λ (row : OutboxRow).
        contains row.outbox_id claimed_ids
        && (is_owned_by claimant_id row.lease_owner && is_being_processed row.status))
      rows)

-- The two statements of a claim: the batch, and the table after it.
unfoldable pub claim_rows :
    (claimant_id : String)
    → (limit lease_seconds now : ℕ) → List OutboxRow
    → List OutboxRow × List OutboxRow
unfolding claim_candidates update_rows claimed_rows
claim_rows claimant_id limit lease_seconds now rows =
    let candidates = claim_candidates now limit rows in
    let claimed_ids =
      outbox_ids (filter (λ (row : OutboxRow). contains row.outbox_id candidates) rows) in
    let after =
      update_rows candidates (claim_row claimant_id now (now + lease_seconds * 1_000_000)) rows in
    (if is_empty claimed_ids then [] else claimed_rows claimant_id claimed_ids after, after)

-- The guards, in their order.
unfoldable pub refuse_claim :
    OutboxSettings
    → (claimant_length : ℕ) → (claimant_id : String) → (limit lease_seconds : ℕ) → Option ClaimError
refuse_claim settings claimant_length claimant_id limit lease_seconds =
    if claimant_id == ""
    then some claimant_id_invalid
    else if ltb max_claimant_id_length claimant_length
    then some claimant_id_too_long
    else if not (leb 1 limit && leb limit settings.max_claim_batch_size)
    then some claim_limit_invalid
    else if not (leb 1 lease_seconds && leb lease_seconds settings.max_lease_seconds)
    then some lease_seconds_invalid
    else none

pub data ClaimResult : Type 0 where
  claim_refused : ClaimError → ClaimResult
  claimed_batch : List OutboxRow → ClaimResult

abbrev pub claim_unless :
    Option ClaimError
    → List OutboxRow × List OutboxRow
    → List OutboxRow
    → ClaimResult × List OutboxRow
claim_unless (some error) claim rows = (claim_refused error, rows)
claim_unless none claim rows = (claimed_batch claim.0, claim.1)

module _ (strip : String → String) (text_length : String → ℕ) (settings : OutboxSettings) where
  unfoldable pub claim_batch :
      (claimant_id : String)
      → (limit lease_seconds now : ℕ) → List OutboxRow
      → ClaimResult × List OutboxRow
  unfolding refuse_claim claim_rows
  claim_batch claimant_id limit lease_seconds now rows =
      let normalized = strip claimant_id in
      claim_unless (refuse_claim settings (text_length normalized) normalized limit lease_seconds)
        (claim_rows normalized limit lease_seconds now rows) rows

-- The rows of an answer.
abbrev pub batch_of : ClaimResult → List OutboxRow
batch_of (claim_refused error) = []
batch_of (claimed_batch rows) = rows
