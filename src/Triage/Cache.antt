-- ===== src/Triage/Cache.antt =====
-- `InMemoryTriageCache` of agent/triage/cache.py. A value is copied on the way in and out, so it is a
-- value here. The clock is a number of seconds that each call is given.
use agentic_soc_triage_assis.Prelude.{
  ℕ, Dict, List, String, [], none, some, false, inl, inr, ◌≡◌, ◌∷◌, ◌<◌, ◌+◌, ◌==◌, if◌then◌else◌,
  ◌⊎◌, ◌∙◌, Option, put_entry, get_entry, All, text_equality, ltb, Bool, delete_entry, if_ind, not,
  get_entry-delete_entry_other, ap, Bool-cases, get_entry-put_entry, get_entry-put_entry_other,
  true, subst, arith, eq_of_beq,
}

pub record CacheItem {ℓ} (V : Type ℓ) : Type ℓ where
  pub item : V
  pub expires_at : ℕ

module _ {ℓ} {V : Type ℓ} where
  -- The answer of `get`, from the entry that the key has.
  unfoldable pub read_item : (now : ℕ) → Option (CacheItem V) → Option V
  read_item now none = none
  read_item now (some entry) = if ltb now entry.expires_at then some entry.item else none

  abbrev pub is_stale_item : (now : ℕ) → Option (CacheItem V) → Bool
  is_stale_item now none = false
  is_stale_item now (some entry) = not (ltb now entry.expires_at)

  unfoldable pub get :
      (now : ℕ) → (key : String) → Dict String (CacheItem V) → Option V × Dict String (CacheItem V)
  unfolding read_item
  get now key store =
      let entry = get_entry key store in
      (read_item now entry, if is_stale_item now entry then delete_entry key store else store)

  unfoldable pub set :
      (now : ℕ)
      → (key : String) → V
      → (ttl_seconds : ℕ) → Dict String (CacheItem V)
      → Dict String (CacheItem V)
  set now key value ttl_seconds store =
      put_entry key (record { item = value; expires_at = now + ttl_seconds }) store

-- One call of the cache, with its time.
pub data CacheCall {ℓ} (V : Type ℓ) : Type ℓ where
  getting : (now : ℕ) (key : String) → CacheCall V
  setting : (now : ℕ) (key : String) (value : V) (ttl_seconds : ℕ) → CacheCall V

module _ {ℓ} {V : Type ℓ} where
  unfoldable pub after_cache_call :
      CacheCall V → Dict String (CacheItem V) → Dict String (CacheItem V)
  unfolding get set
  after_cache_call (getting now key) store = (get now key store).1
  after_cache_call (setting now key value ttl_seconds) store = set now key value ttl_seconds store

  unfoldable pub after_cache_calls :
      List (CacheCall V) → Dict String (CacheItem V) → Dict String (CacheItem V)
  unfolding after_cache_call
  after_cache_calls [] store = store
  after_cache_calls (call ∷ calls) store = after_cache_calls calls (after_cache_call call store)

  -- The call neither overwrites the key nor reads it at or after the given time.
  abbrev pub Spares : (key : String) (expires_at : ℕ) → CacheCall V → Type 0
  Spares key expires_at (getting now other) = ((other == key) ≡ false) ⊎ (now < expires_at)
  Spares key expires_at (setting now other value ttl_seconds) = (other == key) ≡ false

  after_cache_call-entry :
      (call : CacheCall V) (key : String) (entry : CacheItem V) (store : Dict String (CacheItem V))
      → Spares key entry.expires_at call
      → get_entry key store ≡ some entry
      → get_entry key (after_cache_call call store) ≡ some entry
  unfolding after_cache_call get set
  after_cache_call-entry (getting now other) key entry store (inl differ) h =
      if_ind (λ s. get_entry key s ≡ some entry) (is_stale_item now (get_entry other store))
        (λ _. get_entry-delete_entry_other other key store differ ∙ h) (λ _. h)
  after_cache_call-entry (getting now other) key entry store (inr fresh) h =
      if_ind (λ s. get_entry key s ≡ some entry) (is_stale_item now (get_entry other store))
        (λ stale. elim (Bool-cases (other == key)) [
          | inl same ↦
              let found : get_entry other store ≡ some entry =
                ap (λ (k : String). get_entry k store) (eq_of_beq other key same) ∙ h in
              absurd (stale_ne found stale)
          | inr differ ↦ get_entry-delete_entry_other other key store differ ∙ h
        ])
        (λ _. h)
    where
      stale_ne :
          get_entry other store ≡ some entry → is_stale_item now (get_entry other store) ≡ true → ⊥
      stale_ne found stale =
          let kept : not (ltb now entry.expires_at) ≡ true =
            subst (λ o. is_stale_item now o ≡ true) found stale in
          ground arith
  after_cache_call-entry (setting now other value ttl_seconds) key entry store differ h =
      get_entry-put_entry_other other key _ store differ ∙ h

  after_cache_calls-entry :
      (calls : List (CacheCall V)) (key : String) (entry : CacheItem V)
      (store : Dict String (CacheItem V))
      → All (Spares key entry.expires_at) calls
      → get_entry key store ≡ some entry
      → get_entry key (after_cache_calls calls store) ≡ some entry
  unfolding after_cache_calls
  after_cache_calls-entry [] key entry store spared h = h
  after_cache_calls-entry (call ∷ calls) key entry store spared h =
      after_cache_calls-entry calls key entry (after_cache_call call store) spared.1
        (after_cache_call-entry call key entry store spared.0 h)

  -- A value that is set is what `get` answers for its key before its time to live is over, and from
  -- then on `get` answers nothing, where the calls in between set only other keys and read this key
  -- only before it expires.
  pub get-set :
      (calls : List (CacheCall V)) (key : String) (value : V) (ttl_seconds set_at now : ℕ)
      (store : Dict String (CacheItem V))
      → All (Spares key (set_at + ttl_seconds)) calls
      → (get now key (after_cache_calls calls (set set_at key value ttl_seconds store))).0
        ≡ (if ltb now (set_at + ttl_seconds) then some value else none)
  unfolding get set read_item
  get-set calls key value ttl_seconds set_at now store spared = ap (read_item now) (
      after_cache_calls-entry calls key _ (set set_at key value ttl_seconds store) spared
        (get_entry-put_entry key _ store))
