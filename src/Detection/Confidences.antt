-- ===== src/Detection/Confidences.antt =====
-- The confidence of an incident (agent/detection/scoring.py) is at most one where its signals' are.
use agentic_soc_triage_assis.Detection.Rating.{
  Confidence, calculate_incident_confidence, total_of, not_below,
}
use agentic_soc_triage_assis.Prelude.{
  ℕ, List, [], ◌∷◌, ◌≤◌, ◌*◌, All, map, arith, length, All-take, sort_by-All,
}
use agentic_soc_triage_assis.Detection.Model.{Signal}

-- A fraction of millionths that is at most one.
abbrev pub IsConfidence : Confidence → Type 0
IsConfidence confidence = confidence.total ≤ confidence.count * 1_000_000

abbrev IsMillionths : ℕ → Type 0
IsMillionths n = n ≤ 1_000_000

total_of-bound : (ns : List ℕ) → All IsMillionths ns → total_of ns ≤ length ns * 1_000_000
total_of-bound [] h = omega arith
total_of-bound (n ∷ ns) h = omega (arith, h.0, total_of-bound ns h.1)

confidences-All :
    (signals : List Signal)
    → All (λ (s : Signal). s.confidence ≤ 1_000_000) signals
    → All IsMillionths (map (λ (x : Signal). x.confidence) signals)
confidences-All [] h = h
confidences-All (s ∷ signals) h = (h.0, confidences-All signals h.1)

pub calculate_incident_confidence-IsConfidence :
    (signals : List Signal)
    → All (λ (s : Signal). s.confidence ≤ 1_000_000) signals
    → IsConfidence (calculate_incident_confidence signals)
unfolding calculate_incident_confidence
calculate_incident_confidence-IsConfidence [] h = omega arith
calculate_incident_confidence-IsConfidence (s ∷ signals) h = total_of-bound _ (
    All-take IsMillionths 3 _
      (sort_by-All not_below IsMillionths _ (confidences-All (s ∷ signals) h)))
