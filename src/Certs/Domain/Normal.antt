-- ===== src/Certs/Domain/Normal.antt =====
-- What a normalised domain looks like (normalizeDomain of internal/certs/manager.go).
use routestack_agent.Base.{
  ℕ, ◌≤◌, ◌<◌, Text, Unicode, false, List, [], ◌∷◌, ◌≡◌, ◌≢◌, ◌⊎◌, inl, inr, refl, sym, arith,
  codes, trim_space, trim_suffix, split, cons_first, bytes, length, is_empty, ◌==◌, All, Bool-cases,
}
use routestack_agent.Base.TextLaws.{length-bytes}
use routestack_agent.World.{Result-cases, ok}
use routestack_agent.Certs.Domain.{
  to_lower, first_byte, last_byte, check_bytes, check_label, check_labels, check_domain,
  normalize_domain,
}

-- A lowercase letter, a digit or a hyphen.
abbrev pub IsAllowed : ℕ → Type 0
IsAllowed c = ((b'a' ≤ c) × (c ≤ b'z')) ⊎ ((b'0' ≤ c) × (c ≤ b'9')) ⊎ (c ≡ b'-')

-- The characters of a label, one to 63, of which the first and the last are no hyphens.
pub record IsLabel (l : Text) : Type 0 where
  pub nonempty : l ≢ []
  pub short : length l ≤ 63
  pub first : first_byte l ≢ b'-'
  pub last : last_byte l ≢ b'-'
  pub allowed : All IsAllowed l

-- At least two labels, and 253 characters at most.
pub record IsDomain (d : Text) : Type 0 where
  pub short : length d ≤ 253
  pub qualified : 2 ≤ length (split b'.' d)
  pub labels : All IsLabel (split b'.' d)

-- ASCII text is its own encoding.
bytes_ascii : (s : Text) → All IsAllowed s → bytes s ≡ s
unfolding bytes
bytes_ascii [] h = refl
bytes_ascii (c ∷ s) h = ground (arith, bytes_ascii s h.1)

check_bytes-ok :
    (U : Unicode) (label : Text) (bs : List ℕ) → check_bytes U label bs ≡ ok tt → All IsAllowed bs
unfolding check_bytes
check_bytes-ok U label [] h = tt
check_bytes-ok U label (c ∷ cs) h = ground (arith, check_bytes-ok U label cs)

-- The bytes of a code point above ASCII are not allowed, so allowed bytes spell themselves.
IsAllowed-bytes : (s : Text) → All IsAllowed (bytes s) → All IsAllowed s
unfolding bytes
IsAllowed-bytes [] h = tt
IsAllowed-bytes (c ∷ s) h = ground (arith, IsAllowed-bytes s)

check_label-facts :
    (U : Unicode) (l : Text)
    → check_label U l ≡ ok tt
    → (is_empty l ≡ false)
      × (length (bytes l) ≤ 63)
      × (first_byte (bytes l) ≢ b'-')
      × (last_byte (bytes l) ≢ b'-')
      × (check_bytes U l (bytes l) ≡ ok tt)
unfolding check_label
check_label-facts U l h = ground arith

not_empty : (l : Text) → is_empty l ≡ false → l ≢ []
not_empty [] h = cc
not_empty (c ∷ l) h = cc

check_label-IsLabel : (U : Unicode) (l : Text) → check_label U l ≡ ok tt → IsLabel l
check_label-IsLabel U l h =
    let (nonempty, short, first, last, checked) = check_label-facts U l h in
    let allowed = IsAllowed-bytes l (check_bytes-ok U l (bytes l) checked) in
    let same = bytes_ascii l allowed in
    record {
      nonempty = not_empty l nonempty;
      short = rw same at short;
      first = rw same at first;
      last = rw same at last;
      allowed = allowed;
    }

check_labels-IsLabel : (U : Unicode) (ls : List Text) → check_labels U ls ≡ ok tt → All IsLabel ls
unfolding check_labels
check_labels-IsLabel U [] h = tt
check_labels-IsLabel U (l ∷ ls) h = elim (Result-cases (check_label U l)) [
  | inl (_, e) ↦ (check_label-IsLabel U l e, check_labels-IsLabel U ls (ground arith))
  | inr (m, e) ↦ absurd (ground arith)
]

cons_first-All :
    (P : ℕ → Type 0) (c : ℕ) (ps : List Text) → All (All P) (cons_first c ps) → P c × All (All P) ps
cons_first-All P c [] h = (h.0.0, tt)
cons_first-All P c (p ∷ ps) h = (h.0.0, (h.0.1, h.1))

-- Every character of a text is a separator or lies in a part.
split-All :
    (P : ℕ → Type 0) (sep : ℕ) (s : Text) → All (All P) (split sep s) → All (λ c. P c ⊎ (c ≡ sep)) s
unfolding split
split-All P sep [] h = tt
split-All P sep (c ∷ s) h = elim (Bool-cases (c == sep)) [
  | inl e ↦
      let h' : All (All P) ([] ∷ split sep s) = rw (split, e) at h in
      (inr (ground arith), split-All P sep s h'.1)
  | inr e ↦
      let h' : All (All P) (cons_first c (split sep s)) = rw (split, e) at h in
      let (pc, rest) = cons_first-All P c (split sep s) h' in (inl pc, split-All P sep s rest)
]

labels-IsAllowed : (ls : List Text) → All IsLabel ls → All (All IsAllowed) ls
labels-IsAllowed [] h = tt
labels-IsAllowed (l ∷ ls) (hl, hs) = (hl.allowed, labels-IsAllowed ls hs)

abbrev IsPlain : ℕ → Type 0
IsPlain c = IsAllowed c ⊎ (c ≡ b'.')

domain-IsPlain : (d : Text) → All IsLabel (split b'.' d) → All IsPlain d
domain-IsPlain d h = split-All IsAllowed b'.' d (labels-IsAllowed (split b'.' d) h)

length-bytes_plain : (d : Text) → All IsPlain d → length (bytes d) ≡ length d
length-bytes_plain d h = length-bytes d (ascii d h)
  where
    ascii : (s : Text) → All IsPlain s → All (λ c. c < 0x80) s
    ascii [] _ = tt
    ascii (c ∷ s) h = (ground arith, ascii s h.1)

module _ (U : Unicode) where
  check_domain-facts :
      (d r : Text)
      → check_domain U d ≡ ok r
      → (r ≡ d)
        × (length (bytes d) ≤ 253)
        × (2 ≤ length (split b'.' d))
        × (check_labels U (split b'.' d) ≡ ok tt)
  unfolding check_domain
  check_domain-facts d r h = elim (Result-cases (check_labels U (split b'.' d))) [
    | inl (_, e) ↦ ground arith
    | inr (m, e) ↦ absurd (ground arith)
  ]

  check_domain-IsDomain : (d r : Text) → check_domain U d ≡ ok r → (r ≡ d) × IsDomain d
  check_domain-IsDomain d r h =
      let (same, short, qualified, checked) = check_domain-facts d r h in
      let labels = check_labels-IsLabel U (split b'.' d) checked in
      (
        same,
        record {
          short = rw (length-bytes_plain d (domain-IsPlain d labels)) at short;
          qualified = qualified;
          labels = labels;
        },
      )

  -- Whatever normalizeDomain accepts comes out as at least two labels separated by dots, 253
  -- characters at most, each label one to 63 lowercase letters, digits and hyphens, with no hyphen
  -- at either end.
  pub normalize_domain-IsDomain : (raw d : Text) → normalize_domain U raw ≡ ok d → IsDomain d
  unfolding normalize_domain
  normalize_domain-IsDomain raw d h =
      let lowered = to_lower U (trim_suffix (trim_space raw) (codes ".")) in
      let (same, domain) = check_domain-IsDomain lowered d h in rw (sym same) at domain
