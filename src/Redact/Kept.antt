-- ===== src/Redact/Kept.antt =====
-- What stays when the UUIDs are replaced (RedactSecrets of internal/redact/redact.go).
use routestack_agent.Base.{
  ℕ, zero, suc, Text, Bool, true, false, List, [], ◌∷◌, ◌++◌, Option, none, some, ◌≡◌, refl, arith,
  not, ◌&&◌, Bool-cases, inl, inr,
}
use routestack_agent.Redact.{
  marker, is_word, after_word, starts_word, replace_from, is_hex, strip_classes, hexes, uuid_groups,
  uuid_tail, ends_here, is_uuid, uuid,
}

abbrev pub redacted_from : ℕ → Option ℕ → Text → Text
redacted_from = replace_from uuid

-- After `c` and a character of each class comes the end of a word.
abbrev pub EndsWord : ℕ → List (ℕ → Bool) → Type 0
EndsWord c [] = is_word c ≡ true
EndsWord c (f ∷ fs) = (d : ℕ) → f d ≡ true → EndsWord d fs

pub is_hex-is_word : (c : ℕ) → is_hex c ≡ true → is_word c ≡ true
unfolding is_hex is_word
is_hex-is_word c h = ground arith

hexes-EndsWord : (n c : ℕ) → is_word c ≡ true → EndsWord c (hexes n)
hexes-EndsWord zero c h = h
hexes-EndsWord (suc n) c h = λ d hd. hexes-EndsWord n d (is_hex-is_word d hd)

pub append_hexes-EndsWord : (fs : List (ℕ → Bool)) (n c : ℕ) → EndsWord c (fs ++ hexes (suc n))
append_hexes-EndsWord [] n c = λ d hd. hexes-EndsWord n d (is_hex-is_word d hd)
append_hexes-EndsWord (f ∷ fs) n c = λ d hd. append_hexes-EndsWord fs n d

-- The classes leave the first character of the marker out.
abbrev rejects : List (ℕ → Bool) → Bool
rejects [] = true
rejects (f ∷ fs) = not (f b'[') && rejects fs

pub redacted-found :
    (p : Option ℕ) (d : ℕ) (s : Text)
    → is_uuid p (d ∷ s) ≡ true
    → redacted_from 0 p (d ∷ s) ≡ marker ++ redacted_from 35 (some d) s
unfolding replace_from uuid
redacted-found p d s h = rw (replace_from, uuid, h) refl

pub redacted-kept :
    (p : Option ℕ) (d : ℕ) (s : Text)
    → is_uuid p (d ∷ s) ≡ false
    → redacted_from 0 p (d ∷ s) ≡ d ∷ redacted_from 0 (some d) s
unfolding replace_from uuid
redacted-kept p d s h = rw (replace_from, uuid, h) refl

-- Where the replaced text starts with a character of each class, so does the text itself, and no
-- replacement is in them.
record IsKept (c : ℕ) (fs : List (ℕ → Bool)) (s rest : Text) : Type 0 where
  left : Text
  last : ℕ
  word : is_word last ≡ true
  stripped : strip_classes fs s ≡ some left
  same : rest ≡ redacted_from 0 (some last) left

strip_classes-IsKept :
    (c : ℕ) (fs : List (ℕ → Bool)) (s rest : Text)
    → EndsWord c fs
    → rejects fs ≡ true
    → strip_classes fs (redacted_from 0 (some c) s) ≡ some rest
    → IsKept c fs s rest
unfolding strip_classes replace_from
strip_classes-IsKept c [] s rest ends r h = record {
  left = s;
  last = c;
  word = ends;
  stripped = refl;
  same = ground arith;
}
strip_classes-IsKept c (f ∷ fs) [] rest ends r h = absurd (ground arith)
strip_classes-IsKept c (f ∷ fs) (d ∷ s) rest ends r h =
    elim (Bool-cases (is_uuid (some c) (d ∷ s))) [
      | inl found ↦ absurd (ground (arith, redacted-found (some c) d s found))
      | inr other ↦ elim (Bool-cases (f d)) [
        | inl fits ↦
            let next : strip_classes fs (redacted_from 0 (some d) s) ≡ some rest =
              ground (arith, redacted-kept (some c) d s other) in
            let kept = strip_classes-IsKept d fs s rest (ends d fits) (ground arith) next in
            record {
              left = kept.left;
              last = kept.last;
              word = kept.word;
              stripped = rw (strip_classes, fits) kept.stripped;
              same = kept.same;
            }
        | inr misfit ↦ absurd (ground (arith, redacted-kept (some c) d s other))
      ]
    ]

pub after_word-not-is_uuid : (d : ℕ) (s : Text) → is_word d ≡ true → is_uuid (some d) s ≡ false
unfolding is_uuid
after_word-not-is_uuid d [] h = refl
after_word-not-is_uuid d (c ∷ s) h = ground arith

starts_word-redacted :
    (d : ℕ) (s : Text)
    → is_word d ≡ true
    → starts_word (redacted_from 0 (some d) s) ≡ false
    → starts_word s ≡ false
unfolding starts_word
starts_word-redacted d [] h e = refl
starts_word-redacted d (c ∷ s) h e =
    ground (arith, redacted-kept (some d) c s (after_word-not-is_uuid d (c ∷ s) h))

pub and_true : (a b : Bool) → (a && b) ≡ true → (a ≡ true) × (b ≡ true)
and_true true b h = (refl, h)
and_true false b h = absurd (ground arith)

pub and_false : (a b : Bool) → ((a && false) && b) ≡ false
and_false true b = refl
and_false false b = refl

pub ends_here-some :
    (o : Option Text)
    → ends_here o ≡ true
    → (rest : Text) × (o ≡ some rest) × (starts_word rest ≡ false)
ends_here-some none h = absurd (ground arith)
ends_here-some (some rest) h = (rest, refl, ground arith)

-- A UUID of the replaced text that starts with a character of the text is one of the text.
pub is_uuid-redacted :
    (p : Option ℕ) (c : ℕ) (s : Text)
    → is_uuid p (c ∷ redacted_from 0 (some c) s) ≡ true
    → is_uuid p (c ∷ s) ≡ true
unfolding is_uuid
is_uuid-redacted p c s h =
    let found = strip_classes uuid_tail (redacted_from 0 (some c) s) in
    let (starts, ends) = and_true (not (after_word p) && is_hex c) (ends_here found) h in
    let (rest, e, whole) = ends_here-some found ends in
    let kept =
      strip_classes-IsKept c uuid_tail s rest (append_hexes-EndsWord uuid_groups 11 c) refl e in
    let closed = starts_word-redacted kept.last kept.left kept.word (rw kept.same at whole) in
    rw (starts, kept.stripped, closed) refl
