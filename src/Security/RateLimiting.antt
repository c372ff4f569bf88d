-- ===== src/Security/RateLimiting.antt =====
-- `InMemoryRateLimiter` of agent/security/rate_limiting.py. Times are numbers of microseconds, limits
-- and costs numbers; the clock gives each call its time. The dictionary of windows is a function, and
-- a window object that is changed in place is written back to it.
use agentic_soc_triage_assis.Prelude.{
  ℕ, Bool, String, none, Option, min, leb, List, [], some, ◌∷◌, ◌+◌, ◌-◌, ◌*◌, ◌/◌, ◌||◌, ◌==◌,
  if◌then◌else◌, not, max, ltb, text_equality,
}

abbrev pub micros_per_second : ℕ
micros_per_second = 1_000_000

pub record RateLimitDecision : Type 0 where
  pub allowed : Bool
  pub limit : ℕ
  pub remaining : ℕ
  pub retry_after_seconds : ℕ
  pub reset_at : ℕ

pub record MemoryWindow : Type 0 where
  pub count : ℕ
  pub reset_timestamp : ℕ

abbrev pub Windows : Type 0
Windows = String → Option MemoryWindow

pub record RateLimiter : Type 0 where
  pub windows : Windows
  pub next_cleanup_at : ℕ

abbrev pub new_rate_limiter : RateLimiter
new_rate_limiter = record { windows = λ key. none; next_cleanup_at = 0 }

-- The arguments of a call, with its time.
pub record Consumption : Type 0 where
  pub key : String
  pub limit : ℕ
  pub window_seconds : ℕ
  pub cost : ℕ
  pub now : ℕ

-- `_validate_consumption` does not raise `ValueError`.
unfoldable pub is_valid_consumption : Consumption → Bool
is_valid_consumption c =
    not (ltb c.limit 1 || (ltb c.window_seconds 1 || (ltb c.cost 1 || ltb c.limit c.cost)))

-- A window that is missing or over is replaced by a new one.
unfoldable pub current_window : Consumption → Option MemoryWindow → MemoryWindow
current_window c none = record {
  count = 0;
  reset_timestamp = c.now + c.window_seconds * micros_per_second;
}
current_window c (some window) =
    if leb window.reset_timestamp c.now
    then record { count = 0; reset_timestamp = c.now + c.window_seconds * micros_per_second }
    else window

-- `window.count = min(window.count + cost, limit + cost)`.
unfoldable pub count_cost : Consumption → MemoryWindow → MemoryWindow
count_cost c window = record window { count = min (window.count + c.cost) (c.limit + c.cost) }

-- `int(... + 0.999999)` rounds up to full seconds.
unfoldable pub decide : Consumption → MemoryWindow → RateLimitDecision
decide c window = record {
  allowed = leb window.count c.limit;
  limit = c.limit;
  remaining = c.limit - window.count;
  retry_after_seconds =
      max 1 (min c.window_seconds ((window.reset_timestamp - c.now + 999_999) / micros_per_second));
  reset_at = window.reset_timestamp;
}

-- `{key: window for ... if now < window.reset_timestamp}`.
abbrev pub unless_over : (now : ℕ) → Option MemoryWindow → Option MemoryWindow
unless_over now none = none
unless_over now (some window) = if ltb now window.reset_timestamp then some window else none

unfoldable pub clean_up : Consumption → RateLimiter → RateLimiter
clean_up c limiter =
    if leb limiter.next_cleanup_at c.now
    then record {
      windows = λ key. unless_over c.now (limiter.windows key);
      next_cleanup_at = c.now + min c.window_seconds 60 * micros_per_second;
    }
    else limiter

abbrev pub put_window : String → MemoryWindow → Windows → Windows
put_window key window windows = λ other. if other == key then some window else windows other

-- The locked block of `consume`.
unfoldable pub consume_valid : Consumption → RateLimiter → RateLimitDecision × RateLimiter
unfolding clean_up current_window count_cost decide
consume_valid c limiter =
    let cleaned = clean_up c limiter in
    let window = count_cost c (current_window c (cleaned.windows c.key)) in
    (decide c window, record cleaned { windows = put_window c.key window cleaned.windows })

-- `none` where the arguments are refused.
unfoldable pub consume : Consumption → RateLimiter → Option RateLimitDecision × RateLimiter
unfolding is_valid_consumption consume_valid
consume c limiter =
    if is_valid_consumption c
    then (some (consume_valid c limiter).0, (consume_valid c limiter).1)
    else (none, limiter)

-- The answers to calls, one after the other.
unfoldable pub consume_each : List Consumption → RateLimiter → List (Option RateLimitDecision)
unfolding consume
consume_each [] limiter = []
consume_each (c ∷ calls) limiter = (consume c limiter).0 ∷ consume_each calls (consume c limiter).1
