-- ===== src/Triage/Attempts.antt =====
-- How often `with_retry` calls, how long it sleeps, and what it answers.
use agentic_soc_triage_assis.Triage.Retries.{
  RetrySettings, Reply, RetryResult, retry_after_cap, answered, returned, raised, reraised,
  is_retried, delay_after, ProviderError, retry_loop, backoff, rate_limited, other_error, timed_out,
  unavailable, with_retry,
}
use agentic_soc_triage_assis.Prelude.{
  true, false, ◌≡◌, ◌≤◌, ◌<◌, ◌⊎◌, ℕ, Bool, max, Option, Bool-cases, ◌+◌, none, some, suc, inl, inr,
  refl, List, length, arith, All, ltb, ltb→lt, subst, length-append, [], zero, ◌∷◌, All-append,
}

-- A delay is never above the larger of the two caps.
abbrev pub IsShort : RetrySettings → ℕ → Type 0
IsShort settings delay = delay ≤ max settings.max_delay retry_after_cap

delay_after-IsShort :
    (settings : RetrySettings) (error : ProviderError) (attempt : ℕ)
    → IsShort settings (delay_after settings error attempt)
unfolding delay_after backoff
delay_after-IsShort settings (rate_limited (some retry_after)) attempt = omega arith
delay_after-IsShort settings (rate_limited none) attempt = omega arith
delay_after-IsShort settings timed_out attempt = omega arith
delay_after-IsShort settings unavailable attempt = omega arith
delay_after-IsShort settings (other_error message) attempt = omega arith

module _ {ℓ} {A : Type ℓ} where
  abbrev pub fails_for_retry : Reply A → Bool
  fails_for_retry (answered value) = false
  fails_for_retry (raised error) = is_retried error

  -- The calls before `n` have all failed in a way that is tried again.
  abbrev pub HaveFailed : (func : ℕ → Reply A) → ℕ → Type 0
  HaveFailed func n = (i : ℕ) → i < n → fails_for_retry (func i) ≡ true

  HaveFailed-suc :
      (func : ℕ → Reply A) (n : ℕ)
      → HaveFailed func n
      → fails_for_retry (func n) ≡ true
      → HaveFailed func (n + 1)
  HaveFailed-suc func n h k i below = elim (Bool-cases (ltb i n)) [
    | inl before ↦ h i (omega (arith, ltb→lt i n before))
    | inr reached ↦
        let same : n ≡ i = ground arith in subst (λ m. fails_for_retry (func m) ≡ true) same k
  ]

  -- What a run answers is what its last call did, after as many delays as it has been tried again.
  abbrev pub IsAnswerOf :
      (settings : RetrySettings) (func : ℕ → Reply A) → RetryResult A → (sleeps : ℕ) → Type ℓ
  IsAnswerOf settings func (returned value attempt) sleeps =
      (func attempt ≡ answered value)
      × (attempt ≡ sleeps)
      × (attempt ≤ settings.max_retries)
      × HaveFailed func attempt
  IsAnswerOf settings func (reraised error) sleeps =
      (func sleeps ≡ raised error)
      × (sleeps ≤ settings.max_retries)
      × HaveFailed func sleeps
      × ((is_retried error ≡ false) ⊎ (sleeps ≡ settings.max_retries))

  -- The loop has come to an end, with a result and delays as they should be.
  pub record IsRun (settings : RetrySettings) (func : ℕ → Reply A)
      (outcome : Option (RetryResult A × List ℕ)) : Type ℓ where
    pub run : RetryResult A × List ℕ
    pub ends : outcome ≡ some run
    pub sleeps : ℕ
    pub counted : length run.1 ≡ sleeps
    pub answer : IsAnswerOf settings func run.0 sleeps
    pub short : All (IsShort settings) run.1

  data ReplyCase (r : Reply A) : Type ℓ where
    is_answered : (value : A) → r ≡ answered value → ReplyCase r
    is_final : (error : ProviderError) → r ≡ raised error → is_retried error ≡ false → ReplyCase r
    is_transient :
        (error : ProviderError) → r ≡ raised error → is_retried error ≡ true → ReplyCase r

  Reply-cases : (r : Reply A) → ReplyCase r
  Reply-cases (answered value) = is_answered value refl
  Reply-cases (raised error) = elim (Bool-cases (is_retried error)) [
    | inl retried ↦ is_transient error refl retried
    | inr final ↦ is_final error refl final
  ]

  retry_loop-IsRun :
      (settings : RetrySettings) (func : ℕ → Reply A) (fuel attempt : ℕ) (slept : List ℕ)
      → 0 < fuel
      → fuel + attempt ≡ settings.max_retries + 1
      → HaveFailed func attempt
      → length slept ≡ attempt
      → All (IsShort settings) slept
      → IsRun settings func (retry_loop settings func fuel attempt slept)
  unfolding retry_loop
  retry_loop-IsRun settings func zero attempt slept p e failed counted short = absurd (omega arith)
  retry_loop-IsRun settings func (suc fuel) attempt slept p e failed counted short =
      elim (Reply-cases (func attempt)) [
        | is_answered value same ↦
            rw (same, retry_loop)
              (record {
                run = (returned value attempt, slept);
                ends = refl;
                sleeps = attempt;
                counted = counted;
                answer = (same, refl, omega arith, failed);
                short = short;
              })
        | is_final error same final ↦
            rw (same, final, retry_loop)
              (record {
                run = (reraised error, slept);
                ends = refl;
                sleeps = attempt;
                counted = counted;
                answer = (same, omega arith, failed, inl final);
                short = short;
              })
        | is_transient error same transient ↦
            elim (Bool-cases (ltb settings.max_retries (attempt + 1))) [
              | inl spent ↦
                  rw (same, transient, spent, retry_loop)
                    (record {
                      run = (reraised error, slept);
                      ends = refl;
                      sleeps = attempt;
                      counted = counted;
                      answer = (same, omega arith, failed, inr (ground arith));
                      short = short;
                    })
              | inr left ↦
                  rw (same, transient, left, retry_loop)
                    (retry_loop-IsRun settings func fuel (attempt + 1) _ (ground arith)
                      (omega arith) (HaveFailed-suc func attempt failed (rw same transient))
                      (omega (
                        arith,
                        length-append slept (delay_after settings error (attempt + 1) ∷ []),
                      ))
                      (All-append (IsShort settings) slept _ short
                        (delay_after-IsShort settings error (attempt + 1), tt)))
            ]
      ]

  -- For any function and settings, `with_retry` comes to an end within `max_retries + 1` calls. What
  -- it answers is what its last call did, every call before that failed in a way that is tried
  -- again, it slept once for each of them and never above the larger of `max_delay` and 60 seconds;
  -- it raises an error only where that is not one to try again or all retries are spent.
  pub with_retry-IsRun :
      (settings : RetrySettings) (func : ℕ → Reply A)
      → IsRun settings func (with_retry settings func)
  unfolding with_retry
  with_retry-IsRun settings func =
      retry_loop-IsRun settings func (settings.max_retries + 1) 0 [] (omega arith) (omega arith)
        (λ i below. absurd (omega arith)) refl tt
