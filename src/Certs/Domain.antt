-- ===== src/Certs/Domain.antt =====
-- normalizeDomain and normalizeDomains of internal/certs/manager.go.
pub mod Normal
pub mod Distinct
use routestack_agent.Base.{
  ℕ, ◌+◌, Text, Unicode, Bool, true, false, List, [], ◌∷◌, ◌++◌, map, codes, trim_space,
  trim_suffix, split, bytes, length, is_empty, ltb, leb, ◌==◌, ◌&&◌, ◌||◌, quote, quote_char,
  text_eq, if◌then◌else◌,
}
use routestack_agent.World.{Result, ok, err}

module _ (U : Unicode) where
  lower_rune : ℕ → ℕ
  lower_rune c = if ltb c 0x80 then (if leb b'A' c && leb c b'Z' then c + 32 else c) else U.lower c

  -- strings.ToLower
  unfoldable pub to_lower : Text → Text
  unfolding lower_rune
  to_lower = map lower_rune

-- label[0] and label[len(label)-1], of the bytes of a label that is not empty.
abbrev pub first_byte : List ℕ → ℕ
first_byte [] = 0
first_byte (b ∷ bs) = b

abbrev pub last_byte : List ℕ → ℕ
last_byte [] = 0
last_byte (b ∷ []) = b
last_byte (b ∷ c ∷ bs) = last_byte (c ∷ bs)

abbrev pub is_allowed : ℕ → Bool
is_allowed c = (leb b'a' c && leb c b'z') || (leb b'0' c && leb c b'9') || c == b'-'

-- domains already names d
abbrev pub member : Text → List Text → Bool
member d [] = false
member d (e ∷ es) = text_eq e d || member d es

module _ (U : Unicode) where
  -- The loop over the bytes of a label.
  unfoldable pub check_bytes : Text → List ℕ → Result (Unit {0})
  check_bytes label [] = ok tt
  check_bytes label (c ∷ cs) =
      let rest = check_bytes label cs in
      if is_allowed c
      then rest
      else err (
          codes "label " ++ quote U label ++ codes " contains invalid character " ++ quote_char U c)

  unfoldable pub check_label : Text → Result (Unit {0})
  check_label label =
      if is_empty label
      then err (codes "contains an empty label")
      else if ltb 63 (length (bytes label))
      then err (codes "label " ++ quote U label ++ codes " is too long")
      else if first_byte (bytes label) == b'-' || last_byte (bytes label) == b'-'
      then err (codes "label " ++ quote U label ++ codes " starts or ends with hyphen")
      else check_bytes label (bytes label)

  unfoldable pub check_labels : List Text → Result (Unit {0})
  check_labels [] = ok tt
  check_labels (l ∷ ls) =
      let rest = check_labels ls in elim (check_label l) [ ok _ ↦ rest | err e ↦ err e ]

  -- The tests on a domain in lower case.
  unfoldable pub check_domain : Text → Result Text
  check_domain domain =
      if is_empty domain
      then err (codes "is required")
      else if ltb 253 (length (bytes domain))
      then err (codes "is too long")
      else let labels = split b'.' domain in
        if ltb (length labels) 2
        then err (codes "must be a fully qualified domain name")
        else elim (check_labels labels) [ ok _ ↦ ok domain | err e ↦ err e ]

  -- normalizeDomain
  unfoldable pub normalize_domain : Text → Result Text
  normalize_domain raw = check_domain (to_lower U (trim_suffix (trim_space raw) (codes ".")))

  -- The loop over the additional domains.
  unfoldable pub add_domains : List Text → List Text → Result (List Text)
  add_domains domains [] = ok domains
  add_domains domains (raw ∷ rest) = elim (normalize_domain raw) [
    | err e ↦ err (codes "domains: " ++ e)
    | ok d ↦ add_domains (if member d domains then domains else domains ++ d ∷ []) rest
  ]

  -- normalizeDomains
  unfoldable pub normalize_domains : Text → List Text → Result (List Text)
  normalize_domains primary extra = add_domains (primary ∷ []) extra
