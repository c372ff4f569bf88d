-- ===== src/Detection/Attaching.antt =====
-- What an incident carries is bounded, without repetition and of the right events.
use agentic_soc_triage_assis.Prelude.{
  HasEquality, List, [], true, false, refl, ◌≡◌, ◌∷◌, ◌++◌, ◌≤◌, ◌||◌, ◌==◌, contains, String,
  arith, is_distinct, length, if_ind, sort_by, ap, leb, All, is_empty, not, length-append,
  text_equality, All-append,
}
use agentic_soc_triage_assis.Detection.Attached.{
  add_evidence, add_items, add_signals, collect_evidence, ContextScope, is_context_event,
  add_context, select_context_event_ids, event_ids_in, max_incident_evidence, not_after_evidence,
}
use agentic_soc_triage_assis.Detection.Model.{TextMethods, Evidence, Signal, Event}

module _ {A : Type 0} ⦃e : HasEquality A⦄ where
  pub contains-snoc :
      (x a : A) (xs : List A) → contains x (xs ++ (a ∷ [])) ≡ (contains x xs || (x == a))
  contains-snoc x a [] = ground arith
  contains-snoc x a (y ∷ xs) = ground (arith, contains-snoc x a xs)

  pub is_distinct-snoc :
      (a : A) (xs : List A)
      → contains a xs ≡ false
      → is_distinct xs ≡ true
      → is_distinct (xs ++ (a ∷ [])) ≡ true
  is_distinct-snoc a [] h d = refl
  is_distinct-snoc a (x ∷ xs) h d =
      ground
        (arith, contains-snoc x a xs, is_distinct-snoc a xs, e.equals_iff x a, e.equals_iff a x)

-- The evidence of an incident.
pub record IsAttached (incident_ids : List String) (evidence : List Evidence) : Type 0 where
  pub bounded : length evidence ≤ max_incident_evidence
  pub distinct_events : is_distinct (event_ids_in evidence) ≡ true
  pub of_incident : All (λ (e : Evidence). contains e.event_id incident_ids ≡ true) evidence

pub ids-snoc :
    (evidence : List Evidence) (item : Evidence)
    → event_ids_in (evidence ++ (item ∷ [])) ≡ event_ids_in evidence ++ (item.event_id ∷ [])
ids-snoc [] item = refl
ids-snoc (x ∷ evidence) item = ap (λ l. x.event_id ∷ l) (ids-snoc evidence item)

add_evidence-IsAttached :
    (ids : List String) (item : Evidence) (evidence : List Evidence)
    → IsAttached ids evidence
    → IsAttached ids (add_evidence ids item evidence)
unfolding add_evidence
add_evidence-IsAttached ids item evidence h =
    if_ind (IsAttached ids) (leb max_incident_evidence (length evidence)) (λ _. h)
      (λ room.
        if_ind (IsAttached ids) (contains item.event_id (event_ids_in evidence)) (λ _. h)
          (λ unseen.
            if_ind (IsAttached ids) (not (contains item.event_id ids)) (λ _. h)
              (λ inside. record {
                bounded = rw (length-append evidence (item ∷ [])) (ground arith);
                distinct_events = rw (ids-snoc evidence item) (
                    is_distinct-snoc item.event_id (event_ids_in evidence) unseen
                      h.distinct_events);
                of_incident =
                    All-append _ evidence (item ∷ []) h.of_incident (ground (arith, inside), tt);
              })))

add_items-IsAttached :
    (ids : List String) (items evidence : List Evidence)
    → IsAttached ids evidence
    → IsAttached ids (add_items ids items evidence)
unfolding add_items
add_items-IsAttached ids [] evidence h = h
add_items-IsAttached ids (item ∷ items) evidence h =
    add_items-IsAttached ids items (add_evidence ids item evidence)
      (add_evidence-IsAttached ids item evidence h)

add_signals-IsAttached :
    (ids : List String) (cluster : List Signal) (evidence : List Evidence)
    → IsAttached ids evidence
    → IsAttached ids (add_signals ids cluster evidence)
unfolding add_signals
add_signals-IsAttached ids [] evidence h = h
add_signals-IsAttached ids (s ∷ cluster) evidence h =
    add_signals-IsAttached ids cluster
      (add_items ids (sort_by not_after_evidence s.evidence) evidence)
      (add_items-IsAttached ids (sort_by not_after_evidence s.evidence) evidence h)

-- The evidence of an incident has at most ten items, no two of one event, and all are of events of the
-- incident.
pub collect_evidence-IsAttached :
    (cluster : List Signal) (ids : List String) → IsAttached ids (collect_evidence cluster ids)
unfolding collect_evidence
collect_evidence-IsAttached cluster ids =
    add_signals-IsAttached ids cluster []
      (record { bounded = omega arith; distinct_events = refl; of_incident = tt })

-- The context of an incident.
pub record IsContext (scope : ContextScope) (context_ids : List String) : Type 0 where
  pub bounded : length context_ids ≤ scope.max_context_events
  pub distinct_events : is_distinct context_ids ≡ true
  pub outside : All (λ id. contains id scope.incident_event_ids ≡ false) context_ids

module _ (text : TextMethods) where
  snoc-IsContext :
      (scope : ContextScope) (ids : List String) (ce : Event)
      → leb scope.max_context_events (length ids) ≡ false
      → is_context_event text scope ids ce ≡ true
      → IsContext scope ids
      → IsContext scope (ids ++ (ce.event_id ∷ []))
  unfolding is_context_event
  snoc-IsContext scope ids ce room fits h = record {
    bounded = rw (length-append ids (ce.event_id ∷ [])) (ground arith);
    distinct_events = is_distinct-snoc ce.event_id ids (ground (arith, fits)) h.distinct_events;
    outside = All-append _ ids (ce.event_id ∷ []) h.outside (ground (arith, fits), tt);
  }

  add_context-IsContext :
      (scope : ContextScope) (events : List Event) (ids : List String)
      → IsContext scope ids
      → IsContext scope (add_context text scope events ids)
  unfolding add_context
  add_context-IsContext scope [] ids h = h
  add_context-IsContext scope (ce ∷ events) ids h = add_context-IsContext scope events _ (
      if_ind (IsContext scope) (leb scope.max_context_events (length ids)) (λ _. h)
        (λ room.
          if_ind (IsContext scope) (is_context_event text scope ids ce)
            (λ fits. snoc-IsContext scope ids ce room fits h) (λ _. h)))

  -- Whatever Python's text methods give: the context events of an incident are at most as many as the
  -- setting allows, without repetition, and none of them is an event of the incident.
  pub select_context_event_ids-IsContext :
      (scope : ContextScope) (events : List Event)
      → IsContext scope (select_context_event_ids text scope events)
  unfolding select_context_event_ids
  select_context_event_ids-IsContext scope events =
      if_ind (IsContext scope) (is_empty events || is_empty scope.incident_events)
        (λ _. record { bounded = omega arith; distinct_events = refl; outside = tt })
        (λ _.
          add_context-IsContext scope events []
            (record { bounded = omega arith; distinct_events = refl; outside = tt }))
