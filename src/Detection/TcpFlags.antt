-- ===== src/Detection/TcpFlags.antt =====
-- agent/tcp_flags.py. A frozenset of tokens is a list that is read by `contains`.
use agentic_soc_triage_assis.Prelude.{
  [], none, some, true, false, ◌≡◌, ◌∷◌, ◌&&◌, ◌==◌, if◌then◌else◌, inl, inr, refl, ◌∙◌, List, ℕ,
  String, Option, Bool, filter, is_empty, ltb, arith, Option-cases, all, text_equality, contains,
  length, not, ap, sym, and_split, if_ind,
}
use agentic_soc_triage_assis.Detection.Model.{TextMethods}

abbrev pub tcp_flag_order : List String
tcp_flag_order = "FIN" ∷ "SYN" ∷ "RST" ∷ "PSH" ∷ "ACK" ∷ "URG" ∷ "ECE" ∷ "CWR" ∷ []

abbrev pub max_tcp_flag_input_chars : ℕ
max_tcp_flag_input_chars = 128

abbrev pub pf_flag_map : List (String × String)
pf_flag_map =
    ("F", "FIN")
    ∷ ("S", "SYN")
    ∷ ("R", "RST")
    ∷ ("P", "PSH")
    ∷ ("A", "ACK")
    ∷ ("U", "URG")
    ∷ ("E", "ECE")
    ∷ ("W", "CWR")
    ∷ []

abbrev pub explicit_none_values : List String
explicit_none_values = "" ∷ "0" ∷ "NONE" ∷ "NULL" ∷ "-" ∷ []

abbrev pub is_tcp_flag : String → Bool
is_tcp_flag token = contains token tcp_flag_order

-- `_PF_FLAG_MAP.get(character)`.
abbrev pub get_flag : List (String × String) → String → Option String
get_flag [] character = none
get_flag (entry ∷ entries) character =
    if character == entry.0 then some entry.1 else get_flag entries character

abbrev pub join_flag : Option String → Option (List String) → Option (List String)
join_flag none flags = none
join_flag (some flag) none = none
join_flag (some flag) (some flags) = some (flag ∷ flags)

-- The flags of a compact text, or `none` when a character is not in the map.
unfoldable pub pf_flags : List String → Option (List String)
pf_flags [] = some []
pf_flags (character ∷ characters) = join_flag (get_flag pf_flag_map character) (pf_flags characters)

unfoldable pub ordered_tokens : List String → List String
ordered_tokens tokens = filter (λ flag. contains flag tokens) tcp_flag_order

pub record TcpFlagNormalization : Type 0 where
  pub canonical : Option (List String)
  pub tokens : List String
  pub explicit_none : Bool
  pub recognized : Bool

module _ (text : TextMethods) where
  abbrev pub normalize : String → String
  normalize value = text.upper (text.strip value)

  -- The compact form, tried last.
  unfoldable pub parse_compact : String → Option (List String)
  parse_compact normalized =
      if is_empty (text.characters normalized) then none else pf_flags (text.characters normalized)

  unfoldable pub parse_known_tokens : String → Option (List String)
  parse_known_tokens value =
      let normalized = normalize value in
      if ltb max_tcp_flag_input_chars (length (text.characters normalized))
      then none
      else if contains normalized explicit_none_values
      then some []
      else if not (is_empty (text.words normalized)) && all is_tcp_flag (text.words normalized)
      then some (text.words normalized)
      else parse_compact normalized

  abbrev pub tokens_or_empty : Option (List String) → List String
  tokens_or_empty none = []
  tokens_or_empty (some tokens) = tokens

  unfoldable pub parse_tcp_flag_tokens : Option String → List String
  parse_tcp_flag_tokens none = []
  parse_tcp_flag_tokens (some value) = tokens_or_empty (parse_known_tokens value)

  -- `canonical` is the list that the source joins with commas; the absent field's normalization.
  abbrev pub missing_flags : TcpFlagNormalization
  missing_flags = record { canonical = none; tokens = []; explicit_none = false; recognized = true }

  abbrev pub no_flags : TcpFlagNormalization
  no_flags = record {
    canonical = some ("NONE" ∷ []);
    tokens = [];
    explicit_none = true;
    recognized = true;
  }

  abbrev pub normalization_of : Option (List String) → TcpFlagNormalization
  normalization_of none = record {
    canonical = none;
    tokens = [];
    explicit_none = false;
    recognized = false;
  }
  normalization_of (some parsed) = record {
    canonical = some (ordered_tokens parsed);
    tokens = ordered_tokens parsed;
    explicit_none = false;
    recognized = true;
  }

  abbrev pub text_or_empty : Option String → String
  text_or_empty none = ""
  text_or_empty (some value) = normalize value

  -- The value is a text or `None`; `str(value)` of other types is left out.
  unfoldable pub canonicalize_tcp_flags :
      Option String → (field_present : Bool) → TcpFlagNormalization
  canonicalize_tcp_flags value field_present =
      if not field_present
      then missing_flags
      else if contains (text_or_empty value) explicit_none_values
      then no_flags
      else normalization_of (parse_known_tokens (text_or_empty value))

abbrev pub all_flags : Option (List String) → Bool
all_flags none = true
all_flags (some tokens) = all is_tcp_flag tokens

abbrev is_flag_or_none : Option String → Bool
is_flag_or_none none = true
is_flag_or_none (some flag) = is_tcp_flag flag

get_flag-IsFlag :
    (entries : List (String × String)) (c : String)
    → all (λ (entry : String × String). is_tcp_flag entry.1) entries ≡ true
    → is_flag_or_none (get_flag entries c) ≡ true
get_flag-IsFlag [] c h = refl
get_flag-IsFlag (entry ∷ entries) c h =
    let parts = and_split _ _ h in
    if_ind (λ o. is_flag_or_none o ≡ true) (c == entry.0) (λ _. parts.0)
      (λ _. get_flag-IsFlag entries c parts.1)

join_flag-IsFlag :
    (flag : Option String) (flags : Option (List String))
    → is_flag_or_none flag ≡ true
    → all_flags flags ≡ true
    → all_flags (join_flag flag flags) ≡ true
join_flag-IsFlag none flags h k = refl
join_flag-IsFlag (some flag) none h k = refl
join_flag-IsFlag (some flag) (some flags) h k = rw (h, k) refl

pf_flags-IsFlag : (characters : List String) → all_flags (pf_flags characters) ≡ true
unfolding pf_flags
pf_flags-IsFlag [] = refl
pf_flags-IsFlag (c ∷ cs) =
    join_flag-IsFlag (get_flag pf_flag_map c) (pf_flags cs) (get_flag-IsFlag pf_flag_map c refl)
      (pf_flags-IsFlag cs)

module _ (text : TextMethods) where
  parse_known_tokens-IsFlag : (value : String) → all_flags (parse_known_tokens text value) ≡ true
  unfolding parse_known_tokens parse_compact
  parse_known_tokens-IsFlag value =
      ground (arith, pf_flags-IsFlag (text.characters (normalize text value)))

  -- Whatever Python's text methods give and whatever the field holds, every token that is read from it
  -- is one of the eight TCP flags.
  pub parse_tcp_flag_tokens-IsFlag :
      (value : Option String) → all is_tcp_flag (parse_tcp_flag_tokens text value) ≡ true
  unfolding parse_tcp_flag_tokens
  parse_tcp_flag_tokens-IsFlag none = refl
  parse_tcp_flag_tokens-IsFlag (some value) = elim (Option-cases (parse_known_tokens text value)) [
    | inl unknown ↦ rw unknown refl
    | inr (tokens, known) ↦ rw known (ap all_flags (sym known) ∙ parse_known_tokens-IsFlag value)
  ]
