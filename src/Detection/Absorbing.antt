-- ===== src/Detection/Absorbing.antt =====
-- The loop of `cluster_signals` on groups: what it does to the dictionaries, and what it keeps.
use agentic_soc_triage_assis.Detection.Groups.{
  Group, ids_of, join, differ, or_none, anchors_of, anchors-append, clusters_of, anchors-join,
  contains-ids_filter, set_members-new, append_member-join, best_anchor-contains,
}
use agentic_soc_triage_assis.Prelude.{
  [], some, true, false, refl, ◌≡◌, ◌∷◌, ◌++◌, ◌==◌, List, String, ℕ, contains, All, is_distinct,
  and_split, text_equality, arith, not,
}
use agentic_soc_triage_assis.Detection.Model.{Signal}
use agentic_soc_triage_assis.Detection.Clusters.{
  Ratio, best_anchor, eligible_anchors, place, absorb,
}

-- An id that no anchor has.
abbrev pub IsFresh : List Group → Signal → Type 0
IsFresh gs s = contains s.signal_id (ids_of (anchors_of gs)) ≡ false

apart_from :
    (c : Signal) (cs : List Signal)
    → contains c.signal_id (ids_of cs) ≡ false
    → All (λ (d : Signal). (d.signal_id == c.signal_id) ≡ false) cs
apart_from c [] h = tt
apart_from c (d ∷ cs) h =
    let parts = or_none (c.signal_id == d.signal_id) (contains c.signal_id (ids_of cs)) h in
    (differ d.signal_id c.signal_id parts.0, apart_from c cs parts.1)

contains-ids_append :
    (k : String) (ss : List Signal) (c : Signal)
    → (k == c.signal_id) ≡ false
    → contains k (ids_of ss) ≡ false
    → contains k (ids_of (ss ++ (c ∷ []))) ≡ false
contains-ids_append k [] c apart h = rw apart refl
contains-ids_append k (s ∷ ss) c apart h =
    let parts = or_none (k == s.signal_id) (contains k (ids_of ss)) h in
    rw (parts.0, contains-ids_append k ss c apart parts.1) refl

is_distinct-ids_append :
    (ss : List Signal) (c : Signal)
    → contains c.signal_id (ids_of ss) ≡ false
    → is_distinct (ids_of ss) ≡ true
    → is_distinct (ids_of (ss ++ (c ∷ []))) ≡ true
is_distinct-ids_append [] c h d = refl
is_distinct-ids_append (s ∷ ss) c h d =
    let parts = or_none (c.signal_id == s.signal_id) (contains c.signal_id (ids_of ss)) h in
    ground (
      arith,
      contains-ids_append s.signal_id ss c (differ s.signal_id c.signal_id parts.0),
      is_distinct-ids_append ss c parts.1,
    )

-- What the loop needs and keeps.
pub record IsAbsorbing (cs : List Signal) (gs : List Group) : Type 0 where
  pub signals_distinct : is_distinct (ids_of cs) ≡ true
  pub anchors_distinct : is_distinct (ids_of (anchors_of gs)) ≡ true
  pub all_fresh : All (IsFresh gs) cs

module _ (window_seconds : ℕ) (threshold : Ratio) where
  -- Where the candidate goes.
  unfoldable pub place_group : Signal → List Signal → List Group → List Group
  place_group c [] gs = gs ++ ((c, []) ∷ [])
  place_group c (a ∷ others) gs = join (best_anchor c a others).signal_id c gs

  unfoldable pub absorb_groups : List Signal → List Group → List Group
  absorb_groups [] gs = gs
  absorb_groups (c ∷ cs) gs =
      absorb_groups cs
        (place_group c (eligible_anchors window_seconds threshold c (anchors_of gs)) gs)

  place-place_group :
      (c : Signal) (el : List Signal) (gs : List Group)
      → IsFresh gs c
      → ((id : String)
          → contains id (ids_of el) ≡ true
          → contains id (ids_of (anchors_of gs)) ≡ true)
      → place window_seconds threshold c el (clusters_of gs)
        ≡ some (clusters_of (place_group c el gs))
  unfolding place place_group
  place-place_group c [] gs fresh among =
      rw (set_members-new c gs fresh, anchors-append gs (c, [])) refl
  place-place_group c (a ∷ others) gs fresh among =
      let key = (best_anchor c a others).signal_id in
      rw
        (
          append_member-join key c gs (among key (best_anchor-contains c a others)),
          anchors-join key c gs,
        )
        refl

  IsFresh-place_group :
      (c : Signal) (el : List Signal) (gs : List Group) (d : Signal)
      → (d.signal_id == c.signal_id) ≡ false
      → IsFresh gs d
      → IsFresh (place_group c el gs) d
  unfolding place_group
  IsFresh-place_group c [] gs d apart fresh =
      rw (anchors-append gs (c, [])) (contains-ids_append d.signal_id (anchors_of gs) c apart fresh)
  IsFresh-place_group c (a ∷ others) gs d apart fresh =
      rw (anchors-join (best_anchor c a others).signal_id c gs) fresh

  All-IsFresh :
      (c : Signal) (el : List Signal) (gs : List Group) (ds : List Signal)
      → All (λ (d : Signal). (d.signal_id == c.signal_id) ≡ false) ds
      → All (IsFresh gs) ds
      → All (IsFresh (place_group c el gs)) ds
  All-IsFresh c el gs [] apart fresh = tt
  All-IsFresh c el gs (d ∷ ds) apart fresh =
      (IsFresh-place_group c el gs d apart.0 fresh.0, All-IsFresh c el gs ds apart.1 fresh.1)

  distinct-place_group :
      (c : Signal) (el : List Signal) (gs : List Group)
      → IsFresh gs c
      → is_distinct (ids_of (anchors_of gs)) ≡ true
      → is_distinct (ids_of (anchors_of (place_group c el gs))) ≡ true
  unfolding place_group
  distinct-place_group c [] gs fresh h =
      rw (anchors-append gs (c, [])) (is_distinct-ids_append (anchors_of gs) c fresh h)
  distinct-place_group c (a ∷ others) gs fresh h =
      rw (anchors-join (best_anchor c a others).signal_id c gs) h

  pub eligible-among :
      (c : Signal) (gs : List Group) (id : String)
      → contains id (ids_of (eligible_anchors window_seconds threshold c (anchors_of gs))) ≡ true
      → contains id (ids_of (anchors_of gs)) ≡ true
  unfolding eligible_anchors
  eligible-among c gs id h = contains-ids_filter id _ (anchors_of gs) h

  pub IsAbsorbing-place_group :
      (c : Signal) (cs : List Signal) (el : List Signal) (gs : List Group)
      → IsAbsorbing (c ∷ cs) gs
      → IsAbsorbing cs (place_group c el gs)
  IsAbsorbing-place_group c cs el gs h =
      let parts =
        and_split (not (contains c.signal_id (ids_of cs))) (is_distinct (ids_of cs))
          h.signals_distinct in
      record {
        signals_distinct = parts.1;
        anchors_distinct = distinct-place_group c el gs h.all_fresh.0 h.anchors_distinct;
        all_fresh =
            All-IsFresh c el gs cs (apart_from c cs (ground (arith, parts.0))) h.all_fresh.1;
      }

  pub absorb-absorb_groups :
      (cs : List Signal) (gs : List Group)
      → IsAbsorbing cs gs
      → (absorb window_seconds threshold cs (some (clusters_of gs))
          ≡ some (clusters_of (absorb_groups cs gs)))
        × (is_distinct (ids_of (anchors_of (absorb_groups cs gs))) ≡ true)
  unfolding absorb absorb_groups
  absorb-absorb_groups [] gs h = (refl, h.anchors_distinct)
  absorb-absorb_groups (c ∷ cs) gs h =
      let el = eligible_anchors window_seconds threshold c (anchors_of gs) in
      rw (place-place_group c el gs h.all_fresh.0 (eligible-among c gs))
        (absorb-absorb_groups cs (place_group c el gs) (IsAbsorbing-place_group c cs el gs h))
