-- ===== src/Triage/Retries.antt =====
-- `with_retry` of agent/triage/retry.py. Delays are numbers of microseconds. The function that is
-- tried answers its n-th call, counted from 0, by `func n`; the sleeper is the list of delays it has
-- been given. The `while True` loop runs on fuel.
use agentic_soc_triage_assis.Prelude.{
  ℕ, Option, Bool, [], none, some, true, false, suc, zero, ◌∷◌, ◌++◌, ◌+◌, ◌-◌, ◌*◌, ◌^◌, String,
  min, max, List, ltb,
}

pub data ℤ : Type 0 where
  pos : ℕ → ℤ
  -- `negsuc n` is -(n + 1).
  negsuc : ℕ → ℤ

-- `max(i, 0.0)`.
abbrev pub at_least_zero : ℤ → ℕ
at_least_zero (pos n) = n
at_least_zero (negsuc n) = 0

pub data ProviderError : Type 0 where
  rate_limited : (retry_after : Option ℤ) → ProviderError
  timed_out unavailable : ProviderError
  -- Any exception that `with_retry` does not catch.
  other_error : (message : String) → ProviderError

-- The exceptions that the handler names.
abbrev pub is_retried : ProviderError → Bool
is_retried (other_error message) = false
is_retried _ = true

pub data Reply {ℓ} (A : Type ℓ) : Type ℓ where
  answered : A → Reply A
  raised : ProviderError → Reply A

pub record RetrySettings : Type 0 where
  pub max_retries : ℕ
  pub base_delay : ℕ
  pub max_delay : ℕ

abbrev pub retry_after_cap : ℕ
retry_after_cap = 60000000

unfoldable pub backoff : RetrySettings → (attempt : ℕ) → ℕ
backoff settings attempt = min (settings.base_delay * 2 ^ (attempt - 1)) settings.max_delay

-- The delay after the failure that makes the count `attempt`.
unfoldable pub delay_after : RetrySettings → ProviderError → (attempt : ℕ) → ℕ
unfolding backoff
delay_after settings (rate_limited (some retry_after)) attempt =
    max (backoff settings attempt) (min (at_least_zero retry_after) retry_after_cap)
delay_after settings _ attempt = backoff settings attempt

pub data RetryResult {ℓ} (A : Type ℓ) : Type ℓ where
  -- `return func(), attempt`.
  returned : A → (attempt : ℕ) → RetryResult A
  reraised : ProviderError → RetryResult A

module _ {ℓ} {A : Type ℓ} (settings : RetrySettings) (func : ℕ → Reply A) where
  -- The loop from the state `attempt`, `slept`; `none` where the fuel does not reach the end.
  unfoldable pub retry_loop : (fuel attempt : ℕ) → List ℕ → Option (RetryResult A × List ℕ)
  retry_loop zero attempt slept = none
  retry_loop (suc fuel) attempt slept = elim (func attempt) [
    | answered value ↦ some (returned value attempt, slept)
    | raised error ↦ elim (is_retried error) [
      | false ↦ some (reraised error, slept)
      | true ↦ elim (ltb settings.max_retries (attempt + 1)) [
        | true ↦ some (reraised error, slept)
        | false ↦
            retry_loop fuel (attempt + 1) (slept ++ (delay_after settings error (attempt + 1) ∷ []))
      ]
    ]
  ]

  -- `max_retries + 1` calls are enough.
  unfoldable pub with_retry : Option (RetryResult A × List ℕ)
  unfolding retry_loop
  with_retry = retry_loop (settings.max_retries + 1) 0 []
