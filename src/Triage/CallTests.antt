-- ===== src/Triage/CallTests.antt =====
-- Concrete calls of a provider and of the cache: the theorems on them.
use agentic_soc_triage_assis.Triage.Retries.{
  RetrySettings, with_retry, Reply, retry_loop, raised, delay_after, timed_out, backoff, answered,
  returned,
}
use agentic_soc_triage_assis.Prelude.{
  ℕ, List, [], none, some, suc, zero, inl, inr, refl, ◌≡◌, ◌∷◌, ◌+◌, if◌then◌else◌, ltb, arith,
}
use agentic_soc_triage_assis.Triage.Attempts.{IsRun, with_retry-IsRun}
use agentic_soc_triage_assis.Triage.Cache.{
  get, CacheCall, after_cache_calls, getting, set, setting, get-set,
}

abbrev sample_retries : RetrySettings
sample_retries = record { max_retries = 3; base_delay = 1_000_000; max_delay = 10_000_000 }

-- Times out once, then answers.
abbrev flaky : ℕ → Reply ℕ
flaky zero = raised timed_out
flaky (suc n) = answered n

with_retry-IsRun_example : IsRun sample_retries flaky (with_retry sample_retries flaky)
with_retry-IsRun_example = with_retry-IsRun sample_retries flaky

with_retry_test : with_retry sample_retries flaky ≡ some (returned 0 1, 1_000_000 ∷ [])
unfolding with_retry retry_loop delay_after backoff
with_retry_test = refl

abbrev sample_calls : List (CacheCall ℕ)
sample_calls = getting 5 "k" ∷ setting 6 "other" 2 3600 ∷ getting 9000 "other" ∷ []

get-set_example :
    (get 100 "k" (after_cache_calls sample_calls (set 1 "k" 7 3600 []))).0
    ≡ (if ltb 100 (1 + 3600) then some 7 else none)
get-set_example =
    get-set sample_calls "k" 7 3600 1 100 [] (inr (omega arith), (refl, (inl refl, tt)))
