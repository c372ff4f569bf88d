-- ===== src/Correlation/Tests.antt =====
-- Concrete incidents: the theorems on them.
use agentic_soc_triage_assis.Prelude.{
  String, [], refl, ◌≡◌, ◌∷◌, arith, sort_by, insert_sorted, put_entry,
}
use agentic_soc_triage_assis.Correlation.Evidence.{
  merge_evidence, valid_sorted_unique, keep_all_valid, keep_valid, reserve_first, fill_slots,
  fill_slot, remaining_pool, index_evidence,
}
use agentic_soc_triage_assis.Correlation.Bundled.{IsBundleOf, merge_incident_bundles-IsBundleOf}
use agentic_soc_triage_assis.Detection.Model.{Evidence}
use agentic_soc_triage_assis.Detection.Attaching.{IsAttached}
use agentic_soc_triage_assis.Detection.MergeTests.{sample_incident, few_numerals, plain_titles}
use agentic_soc_triage_assis.Correlation.Starving.{FirstKept, merge_evidence-FirstKept}
use agentic_soc_triage_assis.Correlation.Bundling.{merge_incident_bundles}
use agentic_soc_triage_assis.Detection.Samples.{plain_text, signal_on}
use agentic_soc_triage_assis.Detection.Attached.{event_ids_in}

abbrev proof_of : (event_id : String) → Evidence
proof_of event_id = record { event_id = event_id; quote = "q"; reason = "r"; source = "s" }

merge_evidence-FirstKept_example :
    let evidence =
      merge_evidence (proof_of "e2" ∷ proof_of "e1" ∷ []) (proof_of "e3" ∷ []) ("e1" ∷ "e3" ∷ []) in
    IsAttached ("e1" ∷ "e3" ∷ []) evidence
    × FirstKept
        (valid_sorted_unique (proof_of "e2" ∷ proof_of "e1" ∷ []) ("e1" ∷ "e3" ∷ []))
        evidence
    × FirstKept (valid_sorted_unique (proof_of "e3" ∷ []) ("e1" ∷ "e3" ∷ [])) evidence
merge_evidence-FirstKept_example =
    merge_evidence-FirstKept (proof_of "e2" ∷ proof_of "e1" ∷ []) (proof_of "e3" ∷ [])
      ("e1" ∷ "e3" ∷ [])

merge_evidence_test :
    event_ids_in
      (merge_evidence (proof_of "e2" ∷ proof_of "e1" ∷ []) (proof_of "e3" ∷ []) ("e1" ∷ "e3" ∷ []))
    ≡ "e1" ∷ "e3" ∷ []
unfolding merge_evidence valid_sorted_unique keep_all_valid keep_valid reserve_first fill_slots
    fill_slot remaining_pool index_evidence sort_by insert_sorted put_entry
merge_evidence_test = refl

merge_incident_bundles-IsBundleOf_example :
    IsBundleOf (sample_incident "i1" ("e1" ∷ [])) (sample_incident "i2" ("e2" ∷ [])) (
      merge_incident_bundles plain_text plain_titles few_numerals
        (sample_incident "i1" ("e1" ∷ []))
        (sample_incident "i2" ("e2" ∷ []))
        (signal_on ("e1" ∷ "e2" ∷ []) ∷ [])
        5
        [])
merge_incident_bundles-IsBundleOf_example =
    merge_incident_bundles-IsBundleOf plain_text plain_titles few_numerals
      (sample_incident "i1" ("e1" ∷ [])) (sample_incident "i2" ("e2" ∷ []))
      (signal_on ("e1" ∷ "e2" ∷ []) ∷ []) 5 [] refl (omega arith) (omega arith) (omega arith, tt)
