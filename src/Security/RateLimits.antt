-- ===== src/Security/RateLimits.antt =====
-- What the limiter of agent/security/rate_limiting.py promises: forgetting old windows is not seen from
-- outside, and a window lets no more through than its limit.
use agentic_soc_triage_assis.Security.RateLimiting.{
  Consumption, current_window, clean_up, consume_valid, Windows, RateLimiter, MemoryWindow,
  RateLimitDecision, is_valid_consumption, unless_over, decide, count_cost, put_window, consume,
  consume_each, new_rate_limiter,
}
use agentic_soc_triage_assis.Prelude.{
  ap₂, List, ℕ, [], none, some, true, inl, inr, refl, ◌≡◌, ◌∷◌, ◌≤◌, ◌==◌, if◌then◌else◌, ◌∙◌,
  Option, String, if_ind, Bool-cases, sym, leb, ltb, ap, text_equality, arith, subst,
}

-- The specification: fixed windows that are never forgotten.
unfoldable pub step_window : Consumption → Windows → MemoryWindow
step_window c windows = count_cost c (current_window c (windows c.key))

unfoldable pub fixed_answer : Consumption → Windows → Option RateLimitDecision
unfolding step_window
fixed_answer c windows =
    if is_valid_consumption c then some (decide c (step_window c windows)) else none

unfoldable pub fixed_next : Consumption → Windows → Windows
unfolding step_window
fixed_next c windows =
    if is_valid_consumption c then put_window c.key (step_window c windows) windows else windows

unfoldable pub fixed_windows : List Consumption → Windows → List (Option RateLimitDecision)
unfolding fixed_answer fixed_next
fixed_windows [] windows = []
fixed_windows (c ∷ calls) windows =
    fixed_answer c windows ∷ fixed_windows calls (fixed_next c windows)

-- From a time on, the two dictionaries have the same windows that are not over.
abbrev AgreeFrom : ℕ → Windows → Windows → Type 0
AgreeFrom now windows others =
    (key : String) (t : ℕ) → now ≤ t → unless_over t (windows key) ≡ unless_over t (others key)

unless_over-later :
    (now t : ℕ) (window : Option MemoryWindow)
    → now ≤ t
    → unless_over t (unless_over now window) ≡ unless_over t window
unless_over-later now t none h = refl
unless_over-later now t (some window) h = elim (Bool-cases (ltb now window.reset_timestamp)) [
  | inl open_window ↦ rw open_window refl
  | inr over ↦ ground arith
]

current_window-unless_over :
    (c : Consumption) (window : Option MemoryWindow)
    → current_window c (unless_over c.now window) ≡ current_window c window
unfolding current_window
current_window-unless_over c none = refl
current_window-unless_over c (some window) = elim (Bool-cases (ltb c.now window.reset_timestamp)) [
  | inl open_window ↦ rw open_window refl
  | inr over ↦
      let late : leb window.reset_timestamp c.now ≡ true = ground arith in rw (over, late) refl
]

current_window-agree :
    (c : Consumption) (window other : Option MemoryWindow)
    → unless_over c.now window ≡ unless_over c.now other
    → current_window c window ≡ current_window c other
current_window-agree c window other same =
    sym (current_window-unless_over c window)
    ∙ ap (current_window c) same
    ∙ current_window-unless_over c other

clean_up-AgreeFrom :
    (c : Consumption) (limiter : RateLimiter)
    → AgreeFrom c.now (clean_up c limiter).windows limiter.windows
unfolding clean_up
clean_up-AgreeFrom c limiter =
    if_ind (λ (l : RateLimiter). AgreeFrom c.now l.windows limiter.windows)
      (leb limiter.next_cleanup_at c.now)
      (λ _. λ key t h. unless_over-later c.now t (limiter.windows key) h) (λ _. λ key t h. refl)

put_window-AgreeFrom :
    (now : ℕ) (key : String) (window : MemoryWindow) (windows others : Windows)
    → AgreeFrom now windows others
    → AgreeFrom now (put_window key window windows) (put_window key window others)
put_window-AgreeFrom now key window windows others h other t k = elim (Bool-cases (other == key)) [
  | inl same ↦ rw same refl
  | inr differ ↦ rw differ (h other t k)
]

-- The times do not go back.
abbrev pub InOrder : ℕ → List Consumption → Type 0
InOrder now [] = Unit
InOrder now (c ∷ calls) = (now ≤ c.now) × InOrder c.now calls

-- What one valid call does to both.
consume_valid-step :
    (c : Consumption) (limiter : RateLimiter) (windows : Windows)
    → AgreeFrom c.now limiter.windows windows
    → ((consume_valid c limiter).0 ≡ decide c (step_window c windows))
      × AgreeFrom c.now
          (consume_valid c limiter).1.windows
          (put_window c.key (step_window c windows) windows)
unfolding consume_valid step_window
consume_valid-step c limiter windows h =
    let agree : AgreeFrom c.now (clean_up c limiter).windows windows =
      λ key t k. clean_up-AgreeFrom c limiter key t k ∙ h key t k in
    let same : current_window c ((clean_up c limiter).windows c.key)
        ≡ current_window c (windows c.key) =
      current_window-agree c _ _ (agree c.key c.now (omega arith)) in
    (
      ap (λ w. decide c (count_cost c w)) same,
      subst
          (λ w.
            AgreeFrom c.now (put_window c.key (count_cost c w) (clean_up c limiter).windows)
              (put_window c.key (step_window c windows) windows))
          (sym same)
          (put_window-AgreeFrom c.now c.key (step_window c windows) (clean_up c limiter).windows
            windows agree),
    )

consume-step :
    (c : Consumption) (limiter : RateLimiter) (windows : Windows)
    → AgreeFrom c.now limiter.windows windows
    → ((consume c limiter).0 ≡ fixed_answer c windows)
      × AgreeFrom c.now (consume c limiter).1.windows (fixed_next c windows)
unfolding consume fixed_answer fixed_next
consume-step c limiter windows h = elim (Bool-cases (is_valid_consumption c)) [
  | inl valid ↦
      let step = consume_valid-step c limiter windows h in rw valid (ap some step.0, step.1)
  | inr refused ↦ rw refused (refl, h)
]

consume_each-agree :
    (calls : List Consumption) (now : ℕ) (limiter : RateLimiter) (windows : Windows)
    → InOrder now calls
    → AgreeFrom now limiter.windows windows
    → consume_each calls limiter ≡ fixed_windows calls windows
unfolding consume_each fixed_windows
consume_each-agree [] now limiter windows ordered h = refl
consume_each-agree (c ∷ calls) now limiter windows ordered h =
    let step = consume-step c limiter windows (λ key t k. h key t (omega (arith, ordered.0))) in
    ap₂ ◌∷◌ step.0 (consume_each-agree calls c.now _ _ ordered.1 step.1)

-- Where the clock does not go back, a new limiter, which forgets windows that are over at intervals,
-- gives to any calls the answers of the specification that never forgets a window.
pub consume_each-fixed_windows :
    (calls : List Consumption)
    → InOrder 0 calls
    → consume_each calls new_rate_limiter ≡ fixed_windows calls (λ key. none)
consume_each-fixed_windows calls ordered =
    consume_each-agree calls 0 new_rate_limiter (λ key. none) ordered (λ key t h. refl)
