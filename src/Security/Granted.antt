-- ===== src/Security/Granted.antt =====
-- How much one window of the limiter of agent/security/rate_limiting.py lets through.
use agentic_soc_triage_assis.Prelude.{
  String, [], none, some, false, refl, ◌≡◌, ◌∷◌, ◌<◌, ◌+◌, ◌&&◌, ◌==◌, if◌then◌else◌, ◌⊎◌, List, ℕ,
  Option, text_equality, if_ind, arith, leb, beq_refl, beq_comm, ◌≤◌, inr, true, inl, Bool-cases,
  All, min, subst, eq_of_beq, max, sym,
}
use agentic_soc_triage_assis.Security.RateLimiting.{
  clean_up, consume_valid, Consumption, current_window, RateLimiter, RateLimitDecision, consume,
  MemoryWindow, decide, count_cost, is_valid_consumption,
}

-- The cost that a call is granted for a key.
unfoldable pub granted_cost : String → Consumption → Option RateLimitDecision → ℕ
granted_cost key c none = 0
granted_cost key c (some decision) = if (c.key == key) && decision.allowed then c.cost else 0

unfoldable pub granted : String → List Consumption → RateLimiter → ℕ
unfolding granted_cost
granted key [] limiter = 0
granted key (c ∷ calls) limiter =
    granted_cost key c (consume c limiter).0 + granted key calls (consume c limiter).1

-- The call comes before the time, and if it is for the key it is with the limit.
abbrev pub IsWithin : (key : String) (limit reset : ℕ) → Consumption → Type 0
IsWithin key limit reset c = (c.now < reset) × (((c.key == key) ≡ false) ⊎ (c.limit ≡ limit))

clean_up-open :
    (c : Consumption) (limiter : RateLimiter) (key : String) (window : MemoryWindow)
    → c.now < window.reset_timestamp
    → limiter.windows key ≡ some window
    → (clean_up c limiter).windows key ≡ some window
unfolding clean_up
clean_up-open c limiter key window early h =
    if_ind (λ (l : RateLimiter). l.windows key ≡ some window) (leb limiter.next_cleanup_at c.now)
      (λ _. rw h (ground arith)) (λ _. h)

-- A call for another key leaves the window.
consume_valid-other :
    (c : Consumption) (limiter : RateLimiter) (key : String) (window : MemoryWindow)
    → c.now < window.reset_timestamp
    → (c.key == key) ≡ false
    → limiter.windows key ≡ some window
    → (consume_valid c limiter).1.windows key ≡ some window
unfolding consume_valid
consume_valid-other c limiter key window early differ h =
    ground (arith, clean_up-open c limiter key window early h, beq_comm c.key key)

-- A call for the key counts on in the window.
consume_valid-same :
    (c : Consumption) (limiter : RateLimiter) (window : MemoryWindow)
    → c.now < window.reset_timestamp
    → limiter.windows c.key ≡ some window
    → ((consume_valid c limiter).0 ≡ decide c (count_cost c window))
      × ((consume_valid c limiter).1.windows c.key ≡ some (count_cost c window))
unfolding consume_valid current_window
consume_valid-same c limiter window early h =
    let late : leb window.reset_timestamp c.now ≡ false = ground arith in
    rw (clean_up-open c limiter c.key window early h, late, beq_refl c.key) (refl, refl)

-- What is granted fits under the limit, or nothing is granted and the count is beyond it or as before.
abbrev Fits : (limit granted count after : ℕ) → Type 0
Fits limit granted count after =
    ((granted + count ≤ after) × (after ≤ limit))
    ⊎ ((granted ≡ 0) × ((limit < after) ⊎ (after ≡ count)))

-- One call on the window, which stays.
record IsCounted (key : String) (limit reset count : ℕ) (c : Consumption)
    (answer : Option RateLimitDecision) (after : RateLimiter) : Type 0 where
  window : MemoryWindow
  there : after.windows key ≡ some window
  same_reset : window.reset_timestamp ≡ reset
  fits : Fits limit (granted_cost key c answer) count window.count

consume_other-IsCounted :
    (c : Consumption) (limiter : RateLimiter) (key : String) (limit : ℕ) (window : MemoryWindow)
    → c.now < window.reset_timestamp
    → (c.key == key) ≡ false
    → limiter.windows key ≡ some window
    → IsCounted key limit window.reset_timestamp window.count c
        (some (consume_valid c limiter).0)
        (consume_valid c limiter).1
unfolding granted_cost
consume_other-IsCounted c limiter key limit window early differ h = record {
  window = window;
  there = consume_valid-other c limiter key window early differ h;
  same_reset = refl;
  fits = inr (rw differ refl, inr refl);
}

granted_cost-Fits :
    (c : Consumption) (window : MemoryWindow)
    → is_valid_consumption c ≡ true
    → Fits c.limit
        (granted_cost c.key c (some (decide c (count_cost c window))))
        window.count
        (count_cost c window).count
unfolding granted_cost decide count_cost is_valid_consumption
granted_cost-Fits c window valid =
    elim (Bool-cases (leb (min (window.count + c.cost) (c.limit + c.cost)) c.limit)) [
      | inl allowed ↦ rw (beq_refl c.key, allowed) (inl (ground (arith, valid), ground arith))
      | inr refused ↦ rw (beq_refl c.key, refused) (inr (refl, inl (ground arith)))
    ]

count_cost-reset :
    (c : Consumption) (window : MemoryWindow)
    → (count_cost c window).reset_timestamp ≡ window.reset_timestamp
unfolding count_cost
count_cost-reset c window = refl

granted_cost-refused : (key : String) (c : Consumption) → granted_cost key c none ≡ 0
unfolding granted_cost
granted_cost-refused key c = refl

consume_same-IsCounted :
    (c : Consumption) (limiter : RateLimiter) (window : MemoryWindow)
    → is_valid_consumption c ≡ true
    → c.now < window.reset_timestamp
    → limiter.windows c.key ≡ some window
    → IsCounted c.key c.limit window.reset_timestamp window.count c
        (some (consume_valid c limiter).0)
        (consume_valid c limiter).1
consume_same-IsCounted c limiter window valid early h =
    let step = consume_valid-same c limiter window early h in
    record {
      window = count_cost c window;
      there = step.1;
      same_reset = count_cost-reset c window;
      fits =
          subst
            (λ (d : RateLimitDecision).
              Fits c.limit (granted_cost c.key c (some d)) window.count (count_cost c window).count)
            (sym step.0) (granted_cost-Fits c window valid);
    }

-- The same for a key and a limit that are equal to those of the call.
consume_key-IsCounted :
    (c : Consumption) (limiter : RateLimiter) (key : String) (limit : ℕ) (window : MemoryWindow)
    → c.key ≡ key
    → c.limit ≡ limit
    → is_valid_consumption c ≡ true
    → c.now < window.reset_timestamp
    → limiter.windows key ≡ some window
    → IsCounted key limit window.reset_timestamp window.count c
        (some (consume_valid c limiter).0)
        (consume_valid c limiter).1
consume_key-IsCounted c limiter key limit window same_key same_limit valid early h =
    subst
      (λ k.
        IsCounted k limit window.reset_timestamp window.count c (some (consume_valid c limiter).0)
          (consume_valid c limiter).1)
      same_key
      (subst
        (λ l.
          IsCounted c.key l window.reset_timestamp window.count c (some (consume_valid c limiter).0)
            (consume_valid c limiter).1)
        same_limit (consume_same-IsCounted c limiter window valid early (rw same_key h)))

consume-IsCounted :
    (c : Consumption) (limiter : RateLimiter) (key : String) (limit : ℕ) (window : MemoryWindow)
    → IsWithin key limit window.reset_timestamp c
    → limiter.windows key ≡ some window
    → IsCounted key limit window.reset_timestamp window.count c
        (consume c limiter).0
        (consume c limiter).1
unfolding consume
consume-IsCounted c limiter key limit window within h = elim (Bool-cases (is_valid_consumption c)) [
  | inl valid ↦ rw valid (elim (Bool-cases (c.key == key)) [
    | inl same ↦
        let same_limit : c.limit ≡ limit = ground (arith, within.1) in
        consume_key-IsCounted c limiter key limit window (eq_of_beq c.key key same) same_limit valid
          within.0 h
    | inr differ ↦ consume_other-IsCounted c limiter key limit window within.0 differ h
  ])
  | inr refused ↦ rw refused (record {
    window = window;
    there = h;
    same_reset = refl;
    fits = inr (granted_cost-refused key c, inr refl);
  })
]

granted-bound :
    (calls : List Consumption) (limiter : RateLimiter) (key : String) (limit : ℕ)
    (window : MemoryWindow)
    → All (IsWithin key limit window.reset_timestamp) calls
    → limiter.windows key ≡ some window
    → granted key calls limiter + window.count ≤ max limit window.count
unfolding granted
granted-bound [] limiter key limit window within h = omega arith
granted-bound (c ∷ calls) limiter key limit window within h =
    let step = consume-IsCounted c limiter key limit window within.0 h in
    let rest =
      granted-bound calls (consume c limiter).1 key limit step.window (rw step.same_reset within.1)
        step.there in
    ground (arith, step.fits, rest)

-- From any state of the limiter and for a valid call: where the calls after it come before the time at
-- which its window is reset, and those for its key are with its limit, the costs granted to the key by
-- the call and those after it are at most the limit, whatever calls for other keys come between.
pub granted_le :
    (c : Consumption) (calls : List Consumption) (limiter : RateLimiter)
    → is_valid_consumption c ≡ true
    → All (IsWithin c.key c.limit (consume_valid c limiter).0.reset_at) calls
    → granted c.key (c ∷ calls) limiter ≤ c.limit
unfolding granted consume consume_valid decide
granted_le c calls limiter valid within =
    let window = current_window c ((clean_up c limiter).windows c.key) in
    let fits = granted_cost-Fits c window valid in
    let rest =
      granted-bound calls (consume_valid c limiter).1 c.key c.limit (count_cost c window) within
        (rw (beq_refl c.key) refl) in
    rw valid (ground (arith, fits, rest))
