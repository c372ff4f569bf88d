-- ===== src/Persistence/Exclusive.antt =====
-- Calls of `claim_batch` (agent/persistence/outbox_repository.py), one after the other.
use agentic_soc_triage_assis.Persistence.Outbox.{
  ClaimResult, OutboxRow, OutboxSettings, claim_batch, ClaimError, claim_refused, claimed_batch,
  outbox_ids, claim_unless, batch_of, refuse_claim, claim_candidates,
}
use agentic_soc_triage_assis.Prelude.{
  String, [], none, some, false, refl, ◌≡◌, ◌∷◌, ◌<◌, ◌+◌, ◌*◌, List, ℕ, Option, All, intersects,
  intersects-apart, text_equality,
}
use agentic_soc_triage_assis.Persistence.Leases.{
  ClaimCall, IsHeld, claim_with-keeps, claim_with, batch-IsInside, claim_with-apart,
  claim_with-IsHeld,
}

-- A property of both answers of a call: refused, and claimed.
claim_unless_ind {κ} :
    (Q : ClaimResult × List OutboxRow → Type κ) (refused : Option ClaimError)
    (claim : List OutboxRow × List OutboxRow) (rows : List OutboxRow)
    → ((error : ClaimError) → Q (claim_refused error, rows))
    → Q (claimed_batch claim.0, claim.1)
    → Q (claim_unless refused claim rows)
claim_unless_ind Q none claim rows q r = r
claim_unless_ind Q (some error) claim rows q r = q error

module _ (strip : String → String) (text_length : String → ℕ) (settings : OutboxSettings) where
  abbrev pub call_batch : ClaimCall → List OutboxRow → ClaimResult × List OutboxRow
  call_batch c rows =
      claim_batch strip text_length settings c.claimant_id c.limit c.lease_seconds c.now rows

  -- The table after calls, one after the other.
  unfoldable pub after_calls : List ClaimCall → List OutboxRow → List OutboxRow
  after_calls [] rows = rows
  after_calls (c ∷ calls) rows = after_calls calls (call_batch c rows).1

  abbrev stripped : ClaimCall → ClaimCall
  stripped c = record c { claimant_id = strip c.claimant_id }

  call_batch_ind {κ} :
      (Q : ClaimResult × List OutboxRow → Type κ) (c : ClaimCall) (rows : List OutboxRow)
      → ((error : ClaimError) → Q (claim_refused error, rows))
      → Q (claimed_batch (claim_with (stripped c) rows).0, (claim_with (stripped c) rows).1)
      → Q (call_batch c rows)
  unfolding claim_batch
  call_batch_ind Q c rows q r =
      claim_unless_ind Q
        (refuse_claim settings (text_length (strip c.claimant_id)) (strip c.claimant_id) c.limit
          c.lease_seconds)
        (claim_with (stripped c) rows) rows q r

  after_calls-IsHeld :
      (ids : List String) (expires_at : ℕ) (calls : List ClaimCall) (rows : List OutboxRow)
      → All (λ (c : ClaimCall). c.now < expires_at) calls
      → All (IsHeld ids expires_at) rows
      → All (IsHeld ids expires_at) (after_calls calls rows)
  unfolding after_calls
  after_calls-IsHeld ids expires_at [] rows early held = held
  after_calls-IsHeld ids expires_at (c ∷ calls) rows early held =
      after_calls-IsHeld ids expires_at calls _ early.1 (
        call_batch_ind (λ r. All (IsHeld ids expires_at) r.1) c rows (λ _. held)
          (claim_with-keeps ids expires_at (stripped c) rows early.0 held))

  -- Whatever `strip` and `len` give: of a batch that has been claimed, no row is in the batch of a call,
  -- by anybody, that comes before the lease is over, whatever calls before the end of the lease,
  -- refused or not, come between the two.
  pub claim_batch-exclusive :
      (first : ClaimCall) (calls : List ClaimCall) (later : ClaimCall) (rows : List OutboxRow)
      → All (λ (c : ClaimCall). c.now < first.now + first.lease_seconds * 1_000_000) calls
      → later.now < first.now + first.lease_seconds * 1_000_000
      → intersects
          (outbox_ids (batch_of (call_batch first rows).0))
          (outbox_ids (batch_of (call_batch later (after_calls calls (call_batch first rows).1)).0))
        ≡ false
  claim_batch-exclusive first calls later rows early latest =
      let expires_at = first.now + first.lease_seconds * 1_000_000 in
      let ids = claim_candidates first.now first.limit rows in
      call_batch_ind
        (λ r.
          intersects (outbox_ids (batch_of r.0))
            (outbox_ids (batch_of (call_batch later (after_calls calls r.1)).0))
          ≡ false)
        first rows (λ _. refl)
        (let claimed = claim_with (stripped first) rows in
          let after = after_calls calls claimed.1 in
          let inside = batch-IsInside (stripped first) rows in
          call_batch_ind
            (λ r. intersects (outbox_ids claimed.0) (outbox_ids (batch_of r.0)) ≡ false) later after
            (λ _. intersects-apart ids (outbox_ids claimed.0) [] inside tt)
            (claim_with-apart ids (outbox_ids claimed.0) expires_at (stripped later) after inside
              latest
              (after_calls-IsHeld ids expires_at calls claimed.1 early
                (claim_with-IsHeld (stripped first) rows))))
