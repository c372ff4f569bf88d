-- ===== src/Persistence/Tests.antt =====
-- Concrete outbox rows: the theorems on them.
use agentic_soc_triage_assis.Prelude.{
  String, List, intersects, [], none, false, refl, ◌≡◌, ◌∷◌, ℕ, arith, sort_by, text_equality,
  insert_sorted,
}
use agentic_soc_triage_assis.Persistence.Outbox.{
  claim_rows, OutboxRow, claim_candidates, outbox_ids, pending, is_claim_candidate, update_rows,
  claim_row, claimed_rows, OutboxSettings, claim_batch, refuse_claim, batch_of,
}
use agentic_soc_triage_assis.Persistence.Leases.{ClaimCall}
use agentic_soc_triage_assis.Persistence.Exclusive.{call_batch, after_calls, claim_batch-exclusive}

abbrev sample_row : (id : String) → (created_at : ℕ) → OutboxRow
sample_row id created_at = record {
  outbox_id = id;
  deduplication_key = id;
  status = pending;
  available_at = 0;
  attempt_count = 0;
  lease_owner = none;
  lease_expires_at = none;
  created_at = created_at;
  updated_at = created_at;
}

abbrev sample_rows : List OutboxRow
sample_rows = sample_row "o1" 2 ∷ sample_row "o2" 1 ∷ []

abbrev call_by : (claimant_id : String) → (now : ℕ) → ClaimCall
call_by claimant_id now = record {
  claimant_id = claimant_id;
  limit = 1;
  lease_seconds = 300;
  now = now;
}

abbrev outbox_settings : OutboxSettings
outbox_settings = record { max_claim_batch_size = 10; max_lease_seconds = 600 }

claim_test :
    outbox_ids
      (batch_of (call_batch (λ s. s) (λ s. 2) outbox_settings (call_by "w1" 1000) sample_rows).0)
    ≡ "o2" ∷ []
unfolding claim_batch refuse_claim claim_rows claim_candidates is_claim_candidate update_rows
    claim_row claimed_rows sort_by insert_sorted
claim_test = refl

claim_batch-exclusive_example :
    let first = call_batch (λ s. s) (λ s. 2) outbox_settings (call_by "w1" 1000) sample_rows in
    intersects (outbox_ids (batch_of first.0)) (
      outbox_ids (
        batch_of
          (call_batch
            (λ s. s)
            (λ s. 2)
            outbox_settings
            (call_by "w2" 3000)
            (after_calls (λ s. s) (λ s. 2) outbox_settings (call_by "w3" 2000 ∷ []) first.1)).0))
    ≡ false
claim_batch-exclusive_example =
    claim_batch-exclusive (λ s. s) (λ s. 2) outbox_settings (call_by "w1" 1000)
      (call_by "w3" 2000 ∷ []) (call_by "w2" 3000) sample_rows (omega arith, tt) (omega arith)
