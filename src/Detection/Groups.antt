-- ===== src/Detection/Groups.antt =====
-- The clusters as a list of anchors with what they absorbed, and that the two dictionaries of
-- `cluster_signals` represent it.
use agentic_soc_triage_assis.Prelude.{
  [], some, true, false, inl, inr, refl, ◌≡◌, ◌∷◌, ◌++◌, ◌==◌, if◌then◌else◌, List, String, Bool,
  ◌||◌, map, if_ind, arith, contains, ap, text_equality, Bool-cases, beq_refl, filter, is_before,
}
use agentic_soc_triage_assis.Detection.Model.{Signal}
use agentic_soc_triage_assis.Detection.Clusters.{
  append_member, set_members, best_anchor, Members, Clusters, compare_anchors,
}

abbrev pub Group : Type 0
Group = Signal × List Signal

abbrev pub ids_of : List Signal → List String
ids_of signals = map (λ (s : Signal). s.signal_id) signals

abbrev pub anchors_of : List Group → List Signal
anchors_of groups = map (λ (g : Group). g.0) groups

abbrev pub members_of : List Group → Members
members_of groups = map (λ (g : Group). (g.0.signal_id, g.0 ∷ g.1)) groups

abbrev pub clusters_of : List Group → Clusters
clusters_of groups = record { anchors = anchors_of groups; members = members_of groups }

abbrev pub listed : List Group → List (List Signal)
listed groups = map (λ (g : Group). g.0 ∷ g.1) groups

-- The signal joins the group of the anchor with this id.
unfoldable pub join : (key : String) → Signal → List Group → List Group
join key s [] = []
join key s (g ∷ gs) =
    if g.0.signal_id == key then (g.0, g.1 ++ (s ∷ [])) ∷ gs else g ∷ join key s gs

pub anchors-join :
    (key : String) (s : Signal) (gs : List Group) → anchors_of (join key s gs) ≡ anchors_of gs
unfolding join
anchors-join key s [] = refl
anchors-join key s (g ∷ gs) =
    if_ind (λ (l : List Group). anchors_of l ≡ anchors_of (g ∷ gs)) (g.0.signal_id == key)
      (λ _. refl) (λ _. ap (λ l. g.0 ∷ l) (anchors-join key s gs))

pub differ : (a b : String) → (b == a) ≡ false → (a == b) ≡ false
differ a b h = ground (arith, text_equality.equals_iff a b, text_equality.equals_iff b a)

pub or_none : (a b : Bool) → (a || b) ≡ false → (a ≡ false) × (b ≡ false)
or_none a b h = (ground arith, ground arith)

pub append_member-join :
    (key : String) (s : Signal) (gs : List Group)
    → contains key (ids_of (anchors_of gs)) ≡ true
    → append_member key s (members_of gs) ≡ some (members_of (join key s gs))
unfolding join append_member
append_member-join key s [] h = cc
append_member-join key s (g ∷ gs) h = elim (Bool-cases (g.0.signal_id == key)) [
  | inl hit ↦ rw hit refl
  | inr miss ↦ rw (miss, append_member-join key s gs (rw (differ key g.0.signal_id miss) at h)) refl
]

pub set_members-new :
    (s : Signal) (gs : List Group)
    → contains s.signal_id (ids_of (anchors_of gs)) ≡ false
    → set_members s.signal_id (s ∷ []) (members_of gs) ≡ members_of (gs ++ ((s, []) ∷ []))
unfolding set_members
set_members-new s [] h = refl
set_members-new s (g ∷ gs) h =
    rw
      (
        differ g.0.signal_id s.signal_id (or_none (s.signal_id == g.0.signal_id) _ h).0,
        set_members-new s gs (or_none (s.signal_id == g.0.signal_id) _ h).1,
      )
      refl

pub anchors-append :
    (gs : List Group) (g : Group) → anchors_of (gs ++ (g ∷ [])) ≡ anchors_of gs ++ (g.0 ∷ [])
anchors-append [] g = refl
anchors-append (h ∷ gs) g = ap (λ l. h.0 ∷ l) (anchors-append gs g)

pub best_anchor-contains :
    (c best : Signal) (anchors : List Signal)
    → contains (best_anchor c best anchors).signal_id (ids_of (best ∷ anchors)) ≡ true
unfolding best_anchor
best_anchor-contains c best [] = ground (arith, beq_refl best.signal_id)
best_anchor-contains c best (a ∷ anchors) =
    if_ind
      (λ (b : Signal).
        contains (best_anchor c b anchors).signal_id (ids_of (best ∷ a ∷ anchors)) ≡ true)
      (is_before (compare_anchors c a best)) (λ _. ground (arith, best_anchor-contains c a anchors))
      (λ _. ground (arith, best_anchor-contains c best anchors))

pub contains-ids_filter :
    (id : String) (p : Signal → Bool) (ss : List Signal)
    → contains id (ids_of (filter p ss)) ≡ true
    → contains id (ids_of ss) ≡ true
contains-ids_filter id p [] h = cc
contains-ids_filter id p (s ∷ ss) h = elim (Bool-cases (p s)) [
  | inl keep ↦ ground (arith, contains-ids_filter id p ss)
  | inr drop ↦ ground (arith, contains-ids_filter id p ss)
]
