-- ===== src/Redact/Uuid.antt =====
-- No UUID leaves the agent (RedactSecrets of internal/redact/redact.go).
use routestack_agent.Base.{
  ℕ, Text, Bool, true, false, List, [], ◌∷◌, ◌++◌, Option, none, some, ◌≡◌, refl, arith, not, ◌&&◌,
  Bool-cases, inl, inr, length, codes,
}
use routestack_agent.Redact.{
  marker, is_word, after_word, starts_word, replace_from, has_match, pass, is_hex, strip_classes,
  uuid_groups, uuid_tail, ends_here, is_uuid, uuid, redact_secrets, json_secret, password,
  wire_guard_key,
}
use routestack_agent.Redact.Kept.{
  redacted_from, EndsWord, is_hex-is_word, append_hexes-EndsWord, redacted-found, redacted-kept,
  after_word-not-is_uuid, and_true, and_false, ends_here-some, is_uuid-redacted,
}

has_match-cons :
    (p : Option ℕ) (c : ℕ) (s : Text)
    → is_uuid p (c ∷ s) ≡ false
    → has_match uuid (some c) s ≡ false
    → has_match uuid p (c ∷ s) ≡ false
unfolding has_match uuid
has_match-cons p c s h rest = rw (has_match, uuid, h) rest

starts_other : (p : Option ℕ) (c : ℕ) (s : Text) → is_word c ≡ false → is_uuid p (c ∷ s) ≡ false
unfolding is_uuid
starts_other p c s h = elim (Bool-cases (is_hex c)) [
  | inl e ↦ absurd (ground (arith, is_hex-is_word c e))
  | inr e ↦ rw e (and_false (not (after_word p)) (ends_here (strip_classes uuid_tail s)))
]

-- The marker holds no UUID and starts none.
has_match-marker :
    (p : Option ℕ) (s : Text)
    → has_match uuid (some b']') s ≡ false
    → has_match uuid p (marker ++ s) ≡ false
unfolding has_match uuid is_uuid is_word
has_match-marker none s h = h
has_match-marker (some c) s h =
    has_match-cons (some c) b'[' (codes "REDACTED]" ++ s)
      (starts_other (some c) b'[' (codes "REDACTED]" ++ s) refl) h

-- The rest of a match, after `c` and a character of each class left.
record IsRest (c : ℕ) (fs : List (ℕ → Bool)) (s : Text) : Type 0 where
  ends : EndsWord c fs
  rest : Text
  stripped : strip_classes fs s ≡ some rest
  open_end : starts_word rest ≡ false

IsRest-tail :
    (c : ℕ) (f : ℕ → Bool) (fs : List (ℕ → Bool)) (d : ℕ) (s : Text)
    → IsRest c (f ∷ fs) (d ∷ s)
    → IsRest d fs s
unfolding strip_classes
IsRest-tail c f fs d s r = elim (Bool-cases (f d)) [
  | inl fits ↦ record {
    ends = r.ends d fits;
    rest = r.rest;
    stripped = ground (arith, r.stripped);
    open_end = r.open_end;
  }
  | inr misfit ↦ absurd (ground (arith, r.stripped))
]

is_uuid-IsRest : (p : Option ℕ) (c : ℕ) (s : Text) → is_uuid p (c ∷ s) ≡ true → IsRest c uuid_tail s
unfolding is_uuid
is_uuid-IsRest p c s h =
    let found = strip_classes uuid_tail s in
    let (starts, ends) = and_true (not (after_word p) && is_hex c) (ends_here found) h in
    let (rest, e, whole) = ends_here-some found ends in
    record {
      ends = append_hexes-EndsWord uuid_groups 11 c;
      rest = rest;
      stripped = e;
      open_end = whole;
    }

IsRest-open : (c d : ℕ) (s : Text) → IsRest c [] (d ∷ s) → is_word d ≡ false
unfolding strip_classes starts_word
IsRest-open c d s r = ground (arith, r.stripped, r.open_end)

kept_other :
    (p : Option ℕ) (c : ℕ) (s : Text)
    → is_uuid p (c ∷ s) ≡ false
    → is_uuid p (c ∷ redacted_from 0 (some c) s) ≡ false
kept_other p c s h = ground (arith, is_uuid-redacted p c s)

mutual
  unfolding has_match replace_from strip_classes starts_word

  clean_text : (p : Option ℕ) (s : Text) → has_match uuid p (redacted_from 0 p s) ≡ false
  clean_text p [] = refl
  clean_text p (c ∷ s) = elim (Bool-cases (is_uuid p (c ∷ s))) [
    | inl found ↦ rw (redacted-found p c s found) (
        has_match-marker p (redacted_from 35 (some c) s)
          (clean_rest c uuid_tail s (is_uuid-IsRest p c s found)))
    | inr other ↦ rw (redacted-kept p c s other) (
        has_match-cons p c (redacted_from 0 (some c) s) (kept_other p c s other)
          (clean_text (some c) s))
  ]

  -- After a match the text goes on behind a marker.
  clean_rest :
      (c : ℕ) (fs : List (ℕ → Bool)) (s : Text)
      → IsRest c fs s
      → has_match uuid (some b']') (redacted_from (length fs) (some c) s) ≡ false
  clean_rest c [] [] r = refl
  clean_rest c [] (d ∷ s) r =
      let closed = after_word-not-is_uuid c (d ∷ s) r.ends in
      rw (redacted-kept (some c) d s closed) (
        has_match-cons (some b']') d (redacted_from 0 (some d) s)
          (starts_other (some b']') d (redacted_from 0 (some d) s) (IsRest-open c d s r))
          (clean_text (some d) s))
  clean_rest c (f ∷ fs) [] r = refl
  clean_rest c (f ∷ fs) (d ∷ s) r = clean_rest d fs s (IsRest-tail c f fs d s r)

uuid-pass : (s : Text) → has_match uuid none (pass uuid s) ≡ false
unfolding pass
uuid-pass s = elim (Bool-cases (has_match uuid none s)) [
  | inl found ↦ rw found (clean_text none s)
  | inr clear ↦ rw clear clear
]

-- Whatever text is redacted, the pattern of UUIDs does not match the result: taking one out never
-- makes another one.
pub has_match-redact_secrets : (s : Text) → has_match uuid none (redact_secrets s) ≡ false
unfolding redact_secrets has_match
has_match-redact_secrets [] = refl
has_match-redact_secrets (c ∷ s) =
    uuid-pass (pass json_secret (pass password (pass wire_guard_key (c ∷ s))))
