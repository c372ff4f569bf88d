-- ===== src/Detection/Partition.antt =====
-- What `cluster_signals` gives: every signal in exactly one cluster, with its own anchor.
use mathlib.Core.List.{Perm, append-nil}
use mathlib.Core.List.Perm
use agentic_soc_triage_assis.Prelude.{
  List, ℕ, [], some, true, false, inl, inr, refl, ◌≡◌, ◌∷◌, ◌++◌, ◌==◌, String, All, contains,
  is_distinct, Bool, ap, Bool-cases, filter, sort_by, and_split, All-append, text_equality, not,
  subst, beq_refl, eq_of_beq, arith, sort_by-perm, is_distinct-sort_by,
}
use agentic_soc_triage_assis.Detection.Groups.{
  join, Group, listed, ids_of, anchors_of, or_none, members_of, differ, best_anchor-contains,
  contains-ids_filter,
}
use agentic_soc_triage_assis.Detection.Model.{Signal}
use agentic_soc_triage_assis.Detection.Clusters.{
  get_members, collect, Ratio, Members, cluster_signals, signals_may_correlate, best_anchor,
  eligible_anchors,
}
use agentic_soc_triage_assis.Detection.Absorbing.{
  IsFresh, place_group, absorb_groups, IsAbsorbing, IsAbsorbing-place_group, eligible-among,
  absorb-absorb_groups,
}
use agentic_soc_triage_assis.Detection.Precedence.{takes_precedence}

abbrev pub all_members : List (List Signal) → List Signal
all_members [] = []
all_members (cluster ∷ clusters) = cluster ++ all_members clusters

-- An element moves to the front.
shift : (xs ys zs : List Signal) (s : Signal) → Perm ys (s ∷ zs) → Perm (xs ++ ys) (s ∷ (xs ++ zs))
shift [] ys zs s h = h
shift (x ∷ xs) ys zs s h = Perm.trans (Perm.cons x (shift xs ys zs s h)) (Perm.swap s x (xs ++ zs))

shift_last : (xs zs : List Signal) (s : Signal) → Perm ((xs ++ (s ∷ [])) ++ zs) (s ∷ (xs ++ zs))
shift_last [] zs s = Perm.rfl
shift_last (x ∷ xs) zs s = Perm.trans (Perm.cons x (shift_last xs zs s)) (Perm.swap s x (xs ++ zs))

join-perm :
    (key : String) (s : Signal) (gs : List Group)
    → contains key (ids_of (anchors_of gs)) ≡ true
    → Perm (all_members (listed (join key s gs))) (s ∷ all_members (listed gs))
unfolding join
join-perm key s [] h = absurd (cc)
join-perm key s (g ∷ gs) h = elim (Bool-cases (g.0.signal_id == key)) [
  | inl hit ↦ rw hit (shift_last (g.0 ∷ g.1) (all_members (listed gs)) s)
  | inr miss ↦ rw miss (
      shift (g.0 ∷ g.1) (all_members (listed (join key s gs))) (all_members (listed gs)) s
        (join-perm key s gs (rw (differ key g.0.signal_id miss) at h)))
]

new_group-perm :
    (s : Signal) (gs : List Group)
    → Perm (all_members (listed (gs ++ ((s, []) ∷ [])))) (s ∷ all_members (listed gs))
new_group-perm s [] = Perm.rfl
new_group-perm s (g ∷ gs) =
    shift (g.0 ∷ g.1) (all_members (listed (gs ++ ((s, []) ∷ [])))) (all_members (listed gs)) s
      (new_group-perm s gs)

get_members-later :
    (g : Group) (M : Members) (hs : List Group)
    → contains g.0.signal_id (ids_of (anchors_of hs)) ≡ false
    → All (λ (h : Group). get_members h.0.signal_id M ≡ some (h.0 ∷ h.1)) hs
    → All
        (λ (h : Group).
          get_members h.0.signal_id ((g.0.signal_id, g.0 ∷ g.1) ∷ M) ≡ some (h.0 ∷ h.1))
        hs
unfolding get_members
get_members-later g M [] apart found = tt
get_members-later g M (h ∷ hs) apart found =
    let parts =
      or_none (g.0.signal_id == h.0.signal_id) (contains g.0.signal_id (ids_of (anchors_of hs)))
        apart in
    (rw parts.0 found.0, get_members-later g M hs parts.1 found.1)

get_members-members_of :
    (gs : List Group)
    → is_distinct (ids_of (anchors_of gs)) ≡ true
    → All (λ (g : Group). get_members g.0.signal_id (members_of gs) ≡ some (g.0 ∷ g.1)) gs
get_members-members_of [] h = tt
get_members-members_of (g ∷ gs) h =
    let parts =
      and_split (not (contains g.0.signal_id (ids_of (anchors_of gs))))
        (is_distinct (ids_of (anchors_of gs))) h in
    (
      unfold get_members in rw (beq_refl g.0.signal_id) refl,
      get_members-later g (members_of gs) gs (ground (arith, parts.0))
          (get_members-members_of gs parts.1),
    )

collect-listed :
    (hs : List Group) (M : Members)
    → All (λ (h : Group). get_members h.0.signal_id M ≡ some (h.0 ∷ h.1)) hs
    → collect (anchors_of hs) M ≡ some (listed hs)
unfolding collect
collect-listed [] M found = refl
collect-listed (h ∷ hs) M found = rw (found.0, collect-listed hs M found.1) refl

IsFresh-nil : (cs : List Signal) → All (IsFresh []) cs
IsFresh-nil [] = tt
IsFresh-nil (c ∷ cs) = (refl, IsFresh-nil cs)

module _ (window_seconds : ℕ) (threshold : Ratio) where
  abbrev correlates : Signal → Signal → Bool
  correlates a c = signals_may_correlate window_seconds threshold a c

  -- The first signal is the anchor of all the others.
  abbrev pub IsAnchored : List Signal → Type 0
  IsAnchored [] = ⊥
  IsAnchored (a ∷ ms) = All (λ m. correlates a m ≡ true) ms

  join-IsAnchored :
      (key : String) (c : Signal) (gs : List Group)
      → is_distinct (ids_of (anchors_of gs)) ≡ true
      → contains key (ids_of (filter (λ a. correlates a c) (anchors_of gs))) ≡ true
      → All IsAnchored (listed gs)
      → All IsAnchored (listed (join key c gs))
  unfolding join
  join-IsAnchored key c [] d el h = tt
  join-IsAnchored key c (g ∷ gs) d el h =
      let parts =
        and_split (not (contains g.0.signal_id (ids_of (anchors_of gs))))
          (is_distinct (ids_of (anchors_of gs))) d in
      elim (Bool-cases (g.0.signal_id == key)) [
        | inl hit ↦ elim (Bool-cases (correlates g.0 c)) [
          | inl fits ↦
              rw hit (All-append (λ m. correlates g.0 m ≡ true) g.1 (c ∷ []) h.0 (fits, tt), h.1)
          | inr unfit ↦ absurd (
              cc (
                eq_of_beq g.0.signal_id key hit,
                contains-ids_filter key (λ a. correlates a c) (anchors_of gs) (rw unfit at el),
                parts.0,
              ))
        ]
        | inr miss ↦ elim (Bool-cases (correlates g.0 c)) [
          | inl fits ↦ rw miss (
            h.0,
            join-IsAnchored key c gs parts.1 (rw (fits, differ key g.0.signal_id miss) at el) h.1,
          )
          | inr unfit ↦ rw miss (h.0, join-IsAnchored key c gs parts.1 (rw unfit at el) h.1)
        ]
      ]

  place_group-perm :
      (c : Signal) (el : List Signal) (gs : List Group)
      → ((id : String)
          → contains id (ids_of el) ≡ true
          → contains id (ids_of (anchors_of gs)) ≡ true)
      → Perm
          (all_members (listed (place_group window_seconds threshold c el gs)))
          (c ∷ all_members (listed gs))
  unfolding place_group
  place_group-perm c [] gs among = new_group-perm c gs
  place_group-perm c (a ∷ others) gs among =
      join-perm (best_anchor c a others).signal_id c gs (among _ (best_anchor-contains c a others))

  listed-append :
      (gs : List Group) (g : Group) → listed (gs ++ (g ∷ [])) ≡ listed gs ++ ((g.0 ∷ g.1) ∷ [])
  listed-append [] g = refl
  listed-append (h ∷ gs) g = ap (λ l. (h.0 ∷ h.1) ∷ l) (listed-append gs g)

  place_group-IsAnchored :
      (c : Signal) (el : List Signal) (gs : List Group)
      → is_distinct (ids_of (anchors_of gs)) ≡ true
      → el ≡ filter (λ a. correlates a c) (anchors_of gs)
      → All IsAnchored (listed gs)
      → All IsAnchored (listed (place_group window_seconds threshold c el gs))
  unfolding place_group
  place_group-IsAnchored c [] gs d e h =
      rw (listed-append gs (c, [])) (All-append IsAnchored (listed gs) ((c ∷ []) ∷ []) h (tt, tt))
  place_group-IsAnchored c (a ∷ others) gs d e h =
      join-IsAnchored (best_anchor c a others).signal_id c gs d
        (subst (λ l. contains (best_anchor c a others).signal_id (ids_of l) ≡ true) e
          (best_anchor-contains c a others))
        h

  absorb_groups-IsPartition :
      (cs : List Signal) (gs : List Group)
      → IsAbsorbing cs gs
      → All IsAnchored (listed gs)
      → Perm
          (all_members (listed (absorb_groups window_seconds threshold cs gs)))
          (cs ++ all_members (listed gs))
        × All IsAnchored (listed (absorb_groups window_seconds threshold cs gs))
  unfolding absorb_groups
  absorb_groups-IsPartition [] gs ok h = (Perm.rfl, h)
  absorb_groups-IsPartition (c ∷ cs) gs ok h =
      let el = eligible_anchors window_seconds threshold c (anchors_of gs) in
      let next = place_group window_seconds threshold c el gs in
      let ih =
        absorb_groups-IsPartition cs next
          (IsAbsorbing-place_group window_seconds threshold c cs el gs ok)
          (place_group-IsAnchored c el gs ok.anchors_distinct (unfold eligible_anchors in refl)
            h) in
      (
        Perm.trans ih.0 (
            shift cs (all_members (listed next)) (all_members (listed gs)) c
              (place_group-perm c el gs (eligible-among window_seconds threshold c gs))),
        ih.1,
      )

  -- Where the ids of the signals are distinct: clustering meets no missing key, every signal stands in
  -- exactly one cluster, no cluster is empty, and each further member of a cluster correlates with the
  -- first one, its anchor, directly.
  pub cluster_signals-partition :
      (signals : List Signal)
      → is_distinct (ids_of signals) ≡ true
      → (clusters : List (List Signal)) × (cluster_signals window_seconds threshold signals
          ≡ some clusters)
        × Perm (all_members clusters) signals
        × All IsAnchored clusters
  unfolding cluster_signals
  cluster_signals-partition signals distinct_ids =
      let sorted = sort_by takes_precedence signals in
      let ok : IsAbsorbing sorted [] = record {
        signals_distinct =
            is_distinct-sort_by (λ (s : Signal). s.signal_id) takes_precedence signals distinct_ids;
        anchors_distinct = refl;
        all_fresh = IsFresh-nil sorted;
      } in
      let (loop, ids) = absorb-absorb_groups window_seconds threshold sorted [] ok in
      let groups = absorb_groups window_seconds threshold sorted [] in
      let (complete, anchored) = absorb_groups-IsPartition sorted [] ok tt in
      (
        listed groups,
        rw loop (collect-listed groups (members_of groups) (get_members-members_of groups ids)),
        Perm.trans (rw (append-nil sorted) at complete) (sort_by-perm takes_precedence signals),
        anchored,
      )
