-- ===== src/Persistence/Leases.antt =====
-- A claimed row of the outbox (agent/persistence/outbox_repository.py) belongs to one claimant until its
-- lease is over.
use agentic_soc_triage_assis.Prelude.{
  String, List, [], some, true, false, inl, inr, refl, ◌≡◌, ◌∷◌, ◌<◌, ◌⊎◌, ℕ, contains,
  text_equality, All, if_ind, filter, sort_by-All, arith, ◌∙◌, ap, All-take, All-weaken, Bool,
  intersects, ◌+◌, ◌*◌, and_split, is_empty, filter-All, All-contains, intersects-apart,
}
use agentic_soc_triage_assis.Persistence.Outbox.{
  update_rows, is_claim_candidate, claim_candidates, claim_row, OutboxRow, is_being_processed,
  outbox_ids, row_not_after, OutboxStatus, has_expired, claim_rows, is_claimable_status,
  claimed_rows, processing, pending, retry, completed, failed,
}

-- One call of `claim_batch`, with its time.
pub record ClaimCall : Type 0 where
  pub claimant_id : String
  pub limit : ℕ
  pub lease_seconds : ℕ
  pub now : ℕ

-- A row with one of the ids is being processed under a lease to this time.
abbrev pub IsHeld : (ids : List String) (expires_at : ℕ) → OutboxRow → Type 0
IsHeld ids expires_at row =
    (contains row.outbox_id ids ≡ false)
    ⊎ ((is_being_processed row.status ≡ true) × (row.lease_expires_at ≡ some expires_at))

abbrev pub IsOutside : (ids : List String) → String → Type 0
IsOutside ids id = contains id ids ≡ false

abbrev pub IsInside : (ids : List String) → String → Type 0
IsInside ids id = contains id ids ≡ true

claim_row-IsHeld :
    (ids : List String) (claimant_id : String) (now expires_at : ℕ) (rows : List OutboxRow)
    → All (IsHeld ids expires_at) (update_rows ids (claim_row claimant_id now expires_at) rows)
unfolding update_rows claim_row
claim_row-IsHeld ids claimant_id now expires_at [] = tt
claim_row-IsHeld ids claimant_id now expires_at (row ∷ rows) = (
  if_ind (IsHeld ids expires_at) (contains row.outbox_id ids) (λ _. inr (refl, refl))
      (λ other. inl other),
  claim_row-IsHeld ids claimant_id now expires_at rows,
)

processing-claimable :
    (status : OutboxStatus) → is_being_processed status ≡ true → is_claimable_status status ≡ false
processing-claimable processing h = refl
processing-claimable pending h = absurd (ground (arith, h))
processing-claimable retry h = absurd (ground (arith, h))
processing-claimable completed h = refl
processing-claimable failed h = refl

IsHeld-candidate :
    (ids : List String) (expires_at now : ℕ) (row : OutboxRow)
    → now < expires_at
    → IsHeld ids expires_at row
    → is_claim_candidate now row ≡ true
    → IsOutside ids row.outbox_id
unfolding is_claim_candidate
IsHeld-candidate ids expires_at now row early (inl outside) candidate = outside
IsHeld-candidate ids expires_at now row early (inr held) candidate =
    let unexpired : has_expired now row.lease_expires_at ≡ false =
      ap (has_expired now) held.1 ∙ ground arith in
    absurd (ground (arith, unexpired, processing-claimable row.status held.0, candidate))

candidates-IsOutside :
    (ids : List String) (expires_at now limit : ℕ) (rows : List OutboxRow)
    → now < expires_at
    → All (IsHeld ids expires_at) rows
    → All (IsOutside ids) (claim_candidates now limit rows)
unfolding claim_candidates
candidates-IsOutside ids expires_at now limit rows early held = All-ids ids _ (
    All-take _ limit _ (
      sort_by-All row_not_after (λ (row : OutboxRow). IsOutside ids row.outbox_id) _
        (filtered rows held)))
  where
    All-ids :
        (ids : List String) (rows : List OutboxRow)
        → All (λ (row : OutboxRow). IsOutside ids row.outbox_id) rows
        → All (IsOutside ids) (outbox_ids rows)
    All-ids ids [] h = h
    All-ids ids (row ∷ rows) h = (h.0, All-ids ids rows h.1)

    filtered :
        (rows : List OutboxRow)
        → All (IsHeld ids expires_at) rows
        → All
            (λ (row : OutboxRow). IsOutside ids row.outbox_id)
            (filter (is_claim_candidate now) rows)
    filtered [] h = h
    filtered (row ∷ rows) h =
        if_ind (All (λ (r : OutboxRow). IsOutside ids r.outbox_id)) (is_claim_candidate now row)
          (λ candidate.
            (IsHeld-candidate ids expires_at now row early h.0 candidate, filtered rows h.1))
          (λ _. filtered rows h.1)

-- The rows that are held stay so through a claim before the end of the lease.
update_rows-IsHeld :
    (ids others : List String) (expires_at : ℕ) (claimant_id : String) (now until : ℕ)
    (rows : List OutboxRow)
    → All (IsOutside ids) others
    → All (IsHeld ids expires_at) rows
    → All (IsHeld ids expires_at) (update_rows others (claim_row claimant_id now until) rows)
unfolding update_rows claim_row
update_rows-IsHeld ids others expires_at claimant_id now until [] outside held = tt
update_rows-IsHeld ids others expires_at claimant_id now until (row ∷ rows) outside held = (
  if_ind (IsHeld ids expires_at) (contains row.outbox_id others)
      (λ taken. inl (All-contains (IsOutside ids) row.outbox_id others outside taken))
      (λ _. held.0),
  update_rows-IsHeld ids others expires_at claimant_id now until rows outside held.1,
)

abbrev pub claim_with : ClaimCall → List OutboxRow → List OutboxRow × List OutboxRow
claim_with c rows = claim_rows c.claimant_id c.limit c.lease_seconds c.now rows

-- The rows that are held stay so through one claim.
pub claim_with-keeps :
    (ids : List String) (expires_at : ℕ) (c : ClaimCall) (rows : List OutboxRow)
    → c.now < expires_at
    → All (IsHeld ids expires_at) rows
    → All (IsHeld ids expires_at) (claim_with c rows).1
unfolding claim_rows
claim_with-keeps ids expires_at c rows early held =
    update_rows-IsHeld ids (claim_candidates c.now c.limit rows) expires_at c.claimant_id c.now _
      rows (candidates-IsOutside ids expires_at c.now c.limit rows early held) held

outbox_ids-IsInside :
    (ids : List String) (rows : List OutboxRow)
    → All (λ (row : OutboxRow). IsInside ids row.outbox_id) rows
    → All (IsInside ids) (outbox_ids rows)
outbox_ids-IsInside ids [] h = h
outbox_ids-IsInside ids (row ∷ rows) h = (h.0, outbox_ids-IsInside ids rows h.1)

claimed_rows-IsInside :
    (ids : List String) (claimant_id : String) (claimed_ids : List String) (rows : List OutboxRow)
    → All (IsInside ids) claimed_ids
    → All
        (λ (row : OutboxRow). IsInside ids row.outbox_id)
        (claimed_rows claimant_id claimed_ids rows)
unfolding claimed_rows
claimed_rows-IsInside ids claimant_id claimed_ids rows inside = sort_by-All row_not_after _ _ (
    All-weaken _
      (λ (row : OutboxRow) kept.
        All-contains (IsInside ids) row.outbox_id claimed_ids inside (and_split _ _ kept).0)
      (filter-All _ rows))

-- A batch has ids of the candidates only.
pub batch-IsInside :
    (c : ClaimCall) (rows : List OutboxRow)
    → All (IsInside (claim_candidates c.now c.limit rows)) (outbox_ids (claim_with c rows).0)
unfolding claim_rows
batch-IsInside c rows =
    let candidates = claim_candidates c.now c.limit rows in
    let is_taken : OutboxRow → Bool = λ (row : OutboxRow). contains row.outbox_id candidates in
    let taken = outbox_ids (filter is_taken rows) in
    outbox_ids-IsInside candidates (claim_with c rows).0 (
      if_ind (All (λ (row : OutboxRow). IsInside candidates row.outbox_id)) (is_empty taken)
        (λ _. tt)
        (λ _.
          claimed_rows-IsInside candidates c.claimant_id taken _
            (outbox_ids-IsInside candidates (filter is_taken rows) (filter-All is_taken rows))))

pub claim_with-IsHeld :
    (c : ClaimCall) (rows : List OutboxRow)
    → All
        (IsHeld (claim_candidates c.now c.limit rows) (c.now + c.lease_seconds * 1_000_000))
        (claim_with c rows).1
unfolding claim_rows
claim_with-IsHeld c rows = claim_row-IsHeld _ c.claimant_id c.now _ rows

-- A claim before the end of the lease takes none of the ids.
pub claim_with-apart :
    (ids xs : List String) (expires_at : ℕ) (c : ClaimCall) (rows : List OutboxRow)
    → All (IsInside ids) xs
    → c.now < expires_at
    → All (IsHeld ids expires_at) rows
    → intersects xs (outbox_ids (claim_with c rows).0) ≡ false
claim_with-apart ids xs expires_at c rows inside early held = intersects-apart ids xs _ inside (
    All-weaken _
      (λ id taken.
        All-contains (IsOutside ids) id _
          (candidates-IsOutside ids expires_at c.now c.limit rows early held) taken)
      (batch-IsInside c rows))
