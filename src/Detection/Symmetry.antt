-- ===== src/Detection/Symmetry.antt =====
-- Relatedness of two events does not depend on which of them is the reference.
use agentic_soc_triage_assis.Prelude.{
  HasEquality, Bool, [], true, false, inl, inr, refl, ◌≡◌, ◌∷◌, ◌&&◌, ◌||◌, ◌==◌, ◌⊎◌, ◌∙◌,
  Bool-cases, List, sym, intersects, contains, is_empty, eq_of_beq, filter, beq_refl, text_equality,
  arith, number_equality, and_split,
}
use agentic_soc_triage_assis.Detection.Related.{
  forward_ip, reverse_ip, forward_ports, reverse_ports, one_sided_service_match, compatible_service,
  both_without_ports, protocols_compatible, events_are_bidirectionally_related, src_ips, src_ports,
  is_likely_service_port, services_of, protocol_text, dst_ips, dst_ports, all_ports,
}
use agentic_soc_triage_assis.Detection.Model.{TextMethods, Event}

module _ {ℓ} {A : Type ℓ} ⦃e : HasEquality A⦄ where
  beq_sym : (a b : A) → (a == b) ≡ (b == a)
  beq_sym a b = elim (Bool-cases (a == b)) [
    | inl same ↦ elim (Bool-cases (b == a)) [
      | inl back ↦ same ∙ sym back
      | inr apart ↦ cc (eq_of_beq a b same, beq_refl a)
    ]
    | inr differ ↦ elim (Bool-cases (b == a)) [
      | inl back ↦ cc (eq_of_beq b a back, beq_refl a)
      | inr apart ↦ differ ∙ sym apart
    ]
  ]

  intersects-nil : (xs : List A) → intersects xs [] ≡ false
  intersects-nil [] = refl
  intersects-nil (x ∷ xs) = intersects-nil xs

  intersects-cons :
      (xs : List A) (y : A) (ys : List A)
      → intersects xs (y ∷ ys) ≡ (contains y xs || intersects xs ys)
  intersects-cons [] y ys = refl
  intersects-cons (x ∷ xs) y ys = ground (arith, intersects-cons xs y ys, beq_sym x y)

  intersects_comm : (xs ys : List A) → intersects xs ys ≡ intersects ys xs
  intersects_comm xs [] = intersects-nil xs
  intersects_comm xs (y ∷ ys) = rw (intersects-cons xs y ys, intersects_comm xs ys) refl

  contains-filter_test :
      (p : A → Bool) (x : A) (ys : List A) → contains x (filter p ys) ≡ (p x && contains x ys)
  contains-filter_test p x [] = ground arith
  contains-filter_test p x (y ∷ ys) = elim (Bool-cases (x == y)) [
    | inl same ↦ ground (arith, contains-filter_test p x ys, eq_of_beq x y same)
    | inr differ ↦ ground (arith, contains-filter_test p x ys)
  ]

  intersects-filter :
      (p : A → Bool) (xs ys : List A) → intersects (filter p xs) ys ≡ intersects xs (filter p ys)
  intersects-filter p [] ys = refl
  intersects-filter p (x ∷ xs) ys =
      ground (arith, intersects-filter p xs ys, contains-filter_test p x ys)

  filter_swap :
      (p : A → Bool) (xs ys : List A) → intersects (filter p xs) ys ≡ intersects (filter p ys) xs
  filter_swap p xs ys = intersects-filter p xs ys ∙ intersects_comm xs (filter p ys)

forward_ip_comm : (a b : Event) → forward_ip a b ≡ forward_ip b a
unfolding forward_ip
forward_ip_comm a b =
    rw (intersects_comm (src_ips a) (src_ips b), intersects_comm (dst_ips a) (dst_ips b)) refl

and_comm : (a b : Bool) → (a && b) ≡ (b && a)
and_comm a b = ground arith

reverse_ip_comm : (a b : Event) → reverse_ip a b ≡ reverse_ip b a
unfolding reverse_ip
reverse_ip_comm a b =
    rw (intersects_comm (src_ips a) (dst_ips b), intersects_comm (dst_ips a) (src_ips b))
      (and_comm (intersects (dst_ips b) (src_ips a)) (intersects (src_ips b) (dst_ips a)))

forward_ports_comm : (a b : Event) → forward_ports a b ≡ forward_ports b a
unfolding forward_ports
forward_ports_comm a b =
    rw (intersects_comm (src_ports a) (src_ports b), intersects_comm (dst_ports a) (dst_ports b))
      refl

reverse_ports_comm : (a b : Event) → reverse_ports a b ≡ reverse_ports b a
unfolding reverse_ports
reverse_ports_comm a b =
    rw (intersects_comm (src_ports a) (dst_ports b), intersects_comm (dst_ports a) (src_ports b))
      (and_comm (intersects (dst_ports b) (src_ports a)) (intersects (src_ports b) (dst_ports a)))

one_sided_comm : (a b : Event) → one_sided_service_match a b ≡ one_sided_service_match b a
unfolding one_sided_service_match
one_sided_comm a b = ground (
  arith,
  filter_swap is_likely_service_port (dst_ports a) (src_ports b),
  filter_swap is_likely_service_port (src_ports a) (dst_ports b),
)

compatible_service_comm : (a b : Event) → compatible_service a b ≡ compatible_service b a
unfolding compatible_service
compatible_service_comm a b =
    intersects_comm (services_of (all_ports a)) (services_of (all_ports b))

both_without_ports_comm : (a b : Event) → both_without_ports a b ≡ both_without_ports b a
unfolding both_without_ports
both_without_ports_comm a b = and_comm (is_empty (all_ports a)) (is_empty (all_ports b))

module _ (text : TextMethods) where
  protocols_compatible_comm :
      (a b : Event) → protocols_compatible text a b ≡ protocols_compatible text b a
  unfolding protocols_compatible
  protocols_compatible_comm a b =
      ground (arith, beq_sym (protocol_text text a.protocol) (protocol_text text b.protocol))

  -- Whatever Python's text methods give, an event is related to another one exactly when that one is
  -- related to it.
  pub events_are_bidirectionally_related_comm :
      (a b : Event)
      → events_are_bidirectionally_related text a b ≡ events_are_bidirectionally_related text b a
  unfolding events_are_bidirectionally_related
  events_are_bidirectionally_related_comm a b =
      rw
        (
          protocols_compatible_comm a b,
          forward_ip_comm a b,
          reverse_ip_comm a b,
          both_without_ports_comm a b,
          forward_ports_comm a b,
          reverse_ports_comm a b,
          compatible_service_comm a b,
          one_sided_comm a b,
        )
        refl

  related-ips :
      (a b : Event)
      → events_are_bidirectionally_related text a b ≡ true
      → (forward_ip a b ≡ true) ⊎ (reverse_ip a b ≡ true)
  unfolding events_are_bidirectionally_related
  related-ips a b h = ground arith

  -- Related events share an address at both ends, each event's source with the other's source and
  -- destination with destination, or crosswise: one shared address is never enough.
  pub related-shares_both_ends :
      (a b : Event)
      → events_are_bidirectionally_related text a b ≡ true
      → ((intersects (src_ips a) (src_ips b) ≡ true) × (intersects (dst_ips a) (dst_ips b) ≡ true))
        ⊎ ((intersects (src_ips a) (dst_ips b) ≡ true)
            × (intersects (dst_ips a) (src_ips b) ≡ true))
  unfolding forward_ip reverse_ip
  related-shares_both_ends a b h = elim (related-ips a b h) [
    | inl forward ↦ inl (and_split _ _ forward)
    | inr back ↦ inr (and_split _ _ back)
  ]
