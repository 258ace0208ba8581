-- ===== src/Components/Digest.antt =====
-- Image digests and references (internal/components/spec.go).
use routestack_agent.Base.{
  ℕ, ◌≤◌, Text, true, List, [], ◌∷◌, ◌++◌, ◌≡◌, ◌↔◌, ◌⊎◌, inl, inr, refl, sym, ◌∙◌, ◌<◌, arith,
  has_prefix, has_suffix, trim_prefix, text_eq, text_eq_sound, bytes, length, All, Any, Bool-cases,
}
use routestack_agent.Base.TextLaws.{
  append-trim_prefix, has_prefix-append, trim_prefix-append, has_suffix_sound, has_suffix-append,
  length-bytes, EndsWith,
}
use routestack_agent.World.{ok}
use routestack_agent.Components.{digest_prefix, all_hex, validate_digest, match_digest}

abbrev pub IsHex : ℕ → Type 0
IsHex r = ((b'0' ≤ r) × (r ≤ b'9')) ⊎ ((b'a' ≤ r) × (r ≤ b'f'))

all_hex-IsHex : (s : Text) → all_hex s ≡ true → All IsHex s
all_hex-IsHex [] h = tt
all_hex-IsHex (r ∷ s) h = ground (arith, all_hex-IsHex s)

IsHex-all_hex : (s : Text) → All IsHex s → all_hex s ≡ true
IsHex-all_hex [] h = refl
IsHex-all_hex (r ∷ s) h = ground (arith, IsHex-all_hex s h.1)

length-bytes_hex : (s : Text) → All IsHex s → length (bytes s) ≡ length s
length-bytes_hex s h = length-bytes s (ascii s h)
  where
    ascii : (s : Text) → All IsHex s → All (λ c. c < 0x80) s
    ascii [] _ = tt
    ascii (r ∷ s) h = (ground arith, ascii s h.1)

-- A digest as the contract has it: "sha256:" and 64 lowercase hexadecimal digits.
abbrev pub IsDigest : Text → Type 0
IsDigest s = (hex : Text) × (s ≡ digest_prefix ++ hex) × (length hex ≡ 64) × All IsHex hex

validate_digest-ok :
    (s : Text)
    → validate_digest s ≡ ok tt
    → let hex = trim_prefix s digest_prefix in
      (has_prefix s digest_prefix ≡ true) × (length (bytes hex) ≡ 64) × (all_hex hex ≡ true)
unfolding validate_digest
validate_digest-ok s h = ground arith

validate_digest-IsDigest : (s : Text) → validate_digest s ≡ ok tt → IsDigest s
validate_digest-IsDigest s h =
    let hex = trim_prefix s digest_prefix in
    let (pre, n, all) = validate_digest-ok s h in
    let digits : All IsHex hex = all_hex-IsHex hex all in
    (hex, append-trim_prefix s digest_prefix pre, sym (length-bytes_hex hex digits) ∙ n, digits)

IsDigest-validate_digest : (s : Text) → IsDigest s → validate_digest s ≡ ok tt
unfolding validate_digest
IsDigest-validate_digest s (hex, e, n, digits) = rw (
  e,
  validate_digest,
  has_prefix-append,
  trim_prefix-append,
  length-bytes_hex hex digits,
  n,
  IsHex-all_hex hex digits,
)

-- ValidateDigest accepts a text exactly if it is "sha256:" and 64 lowercase hexadecimal digits.
pub validate_digest_iff : (s : Text) → (validate_digest s ≡ ok tt) ↔ IsDigest s
validate_digest_iff s = (validate_digest-IsDigest s, IsDigest-validate_digest s)

match_digest-Any :
    (expected : Text) (rds : List Text)
    → match_digest expected rds ≡ true
    → Any (EndsWith expected) rds
unfolding match_digest
match_digest-Any expected [] h = cc
match_digest-Any expected (rd ∷ rds) h = elim (Bool-cases (has_suffix rd expected)) [
  | inl e ↦ inl (has_suffix_sound rd expected e)
  | inr e ↦ elim (Bool-cases (text_eq rd expected)) [
    | inl same ↦ inl ([], text_eq_sound rd expected same)
    | inr other ↦ inr (match_digest-Any expected rds (ground arith))
  ]
]

Any-match_digest :
    (expected : Text) (rds : List Text)
    → Any (EndsWith expected) rds
    → match_digest expected rds ≡ true
unfolding match_digest
Any-match_digest expected [] h = absurd h
Any-match_digest expected (rd ∷ rds) (inl (front, e)) =
    rw (e, match_digest, has_suffix-append front expected)
Any-match_digest expected (rd ∷ rds) (inr later) =
    ground (arith, Any-match_digest expected rds later)

-- MatchDigest finds the expected digest exactly if one of the repository digests ends with it.
pub match_digest_iff :
    (expected : Text) (rds : List Text)
    → (match_digest expected rds ≡ true) ↔ Any (EndsWith expected) rds
match_digest_iff expected rds = (match_digest-Any expected rds, Any-match_digest expected rds)
