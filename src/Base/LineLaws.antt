-- ===== src/Base/LineLaws.antt =====
-- Laws of the lines, words and numbers of Base/Lines.
use Prim.Native.Nat.{ℕ, zero, suc, ◌+◌, ◌/◌, ◌%◌, ◌^◌, ◌<◌}
use mathlib.Core.Path.{◌≡◌, refl, ap, ◌∙◌}
use mathlib.Core.Logic.{inl, inr}
use mathlib.Core.Bool.{false}
use mathlib.Core.List.{List, [], ◌∷◌, ◌++◌, append_assoc, append-nil}
use native.Mathlib.Omega.{arith}
use routestack_agent.Base.Tests.{ltb, ◌==◌, Bool-cases}
use routestack_agent.Base.Lists.{length, All, All-append}
use routestack_agent.Base.Strings.{Text, is_space, bytes, digits_onto, decimal}
use routestack_agent.Base.Lines.{
  scan_lines, lines_onto, drop_return, fitting, fields, starts_field, digits_from, parse_uint,
}

-- Reading the digits of a number brings the number back.
digits_from-digits_onto :
    (fuel n : ℕ) (out : Text)
    → n < fuel
    → n < 2 ^ 64
    → digits_from 0 (digits_onto fuel n out) ≡ digits_from n out
unfolding digits_from digits_onto
digits_from-digits_onto zero n out enough small = absurd (omega arith)
digits_from-digits_onto (suc fuel) n out enough small =
    ground (arith, digits_from-digits_onto fuel (n / 10) ((b'0' + n % 10) ∷ out))

pub parse_uint-decimal : (n : ℕ) → n < 2 ^ 64 → parse_uint (decimal n) ≡ n
unfolding parse_uint decimal digits_from
parse_uint-decimal n small = digits_from-digits_onto (suc n) n [] (omega arith) small

-- Characters that strings.Fields keeps together.
abbrev pub IsSolid : Text → Type 0
IsSolid s = All (λ c. is_space c ≡ false) s

abbrev pub IsWord : Text → Type 0
IsWord [] = ⊥
IsWord (c ∷ s) = IsSolid (c ∷ s)

digit-not-space : (n : ℕ) → n < 10 → is_space (b'0' + n) ≡ false
unfolding is_space
digit-not-space n h = ground arith

digits_onto-IsWord :
    (fuel n : ℕ) (out : Text) → n < fuel → IsSolid out → IsWord (digits_onto fuel n out)
unfolding digits_onto
digits_onto-IsWord zero n out enough solid = absurd (omega arith)
digits_onto-IsWord (suc fuel) n out enough solid = elim (Bool-cases (ltb n 10)) [
  | inl e ↦ rw e (digit-not-space n (ground arith), solid)
  | inr e ↦ rw e (
      digits_onto-IsWord fuel (n / 10) ((b'0' + n % 10) ∷ out) (ground arith)
        (digit-not-space (n % 10) (omega arith), solid))
]

-- Each word after a space.
abbrev pub spaced : List Text → Text
spaced [] = []
spaced (w ∷ ws) = 32 ∷ w ++ spaced ws

pub fields-append :
    (c : ℕ) (w s : Text)
    → IsSolid (c ∷ w)
    → starts_field s ≡ false
    → fields (c ∷ w ++ s) ≡ (c ∷ w) ∷ fields s
unfolding fields starts_field
fields-append c [] s h e = rw (h.0, e) refl
fields-append c (d ∷ w) s (hc, hw) e = ground (arith, fields-append d w s hw e)

pub starts_field-spaced : (ws : List Text) → starts_field (spaced ws) ≡ false
unfolding starts_field is_space
starts_field-spaced [] = refl
starts_field-spaced (w ∷ ws) = refl

pub decimal-IsWord : (n : ℕ) → IsWord (decimal n)
unfolding decimal
decimal-IsWord n = digits_onto-IsWord (suc n) n [] (omega arith) tt

-- The words of a text of words, each after a space.
pub fields-spaced : (ws : List Text) → All IsWord ws → fields (spaced ws) ≡ ws
unfolding fields is_space
fields-spaced [] h = refl
fields-spaced ([] ∷ ws) (h, hs) = absurd h
fields-spaced ((c ∷ w) ∷ ws) (h, hs) =
    fields-append c w (spaced ws) h (starts_field-spaced ws)
    ∙ ap (λ l. (c ∷ w) ∷ l) (fields-spaced ws hs)

pub fields-words :
    (w : Text) (ws : List Text) → All IsWord (w ∷ ws) → fields (w ++ spaced ws) ≡ w ∷ ws
fields-words [] ws (h, hs) = absurd h
fields-words (c ∷ w) ws (h, hs) =
    fields-append c w (spaced ws) h (starts_field-spaced ws)
    ∙ ap (λ l. (c ∷ w) ∷ l) (fields-spaced ws hs)

-- A text on one line: neither "\n" nor "\r".
abbrev pub IsLine : Text → Type 0
IsLine s = All (λ c. ((c == 10) ≡ false) × ((c == 13) ≡ false)) s

lines_onto-line :
    (done line rest : Text)
    → IsLine line
    → lines_onto done (line ++ 10 ∷ rest) ≡ (done ++ line) ∷ lines_onto [] rest
unfolding lines_onto
lines_onto-line done [] rest h = rw (append-nil done) refl
lines_onto-line done (c ∷ line) rest ((not_end, _), h) = rw not_end (
    lines_onto-line (done ++ c ∷ []) line rest h
    ∙ ap (λ l. l ∷ lines_onto [] rest) (append_assoc done (c ∷ []) line))

drop_return-line : (line : Text) → IsLine line → drop_return line ≡ line
unfolding drop_return
drop_return-line [] h = refl
drop_return-line (c ∷ []) h = ground arith
drop_return-line (c ∷ d ∷ line) (_, h) = ap (λ l. c ∷ l) (drop_return-line (d ∷ line) h)

fitting-line :
    (line : Text) (lines : List Text)
    → IsLine line
    → length (bytes line) < 65536
    → fitting (line ∷ lines) ≡ line ∷ fitting lines
unfolding fitting
fitting-line line lines h fits = ground (arith, drop_return-line line h)

-- The first line of a text, if it fits the buffer.
pub scan_lines-line :
    (line rest : Text)
    → IsLine line
    → length (bytes line) < 65536
    → scan_lines (line ++ 10 ∷ rest) ≡ line ∷ scan_lines rest
unfolding scan_lines fitting
scan_lines-line line rest h fits =
    ap fitting (lines_onto-line [] line rest h) ∙ fitting-line line (lines_onto [] rest) h fits

space-free : (c : ℕ) → is_space c ≡ false → ((c == 10) ≡ false) × ((c == 13) ≡ false)
unfolding is_space
space-free c h = (ground arith, ground arith)

pub IsSolid-IsLine : (s : Text) → IsSolid s → IsLine s
IsSolid-IsLine [] h = tt
IsSolid-IsLine (c ∷ s) (h, hs) = (space-free c h, IsSolid-IsLine s hs)

pub spaced-IsLine : (ws : List Text) → All IsWord ws → IsLine (spaced ws)
spaced-IsLine [] h = tt
spaced-IsLine ([] ∷ ws) (h, hs) = absurd h
spaced-IsLine ((c ∷ w) ∷ ws) (h, hs) = (
  (refl, refl),
  All-append _ (c ∷ w) (spaced ws) (IsSolid-IsLine (c ∷ w) h) (spaced-IsLine ws hs),
)

-- Words with spaces between them stand on one line.
pub words-IsLine : (w : Text) (ws : List Text) → All IsWord (w ∷ ws) → IsLine (w ++ spaced ws)
words-IsLine [] ws (h, hs) = absurd h
words-IsLine (c ∷ w) ws (h, hs) =
    All-append _ (c ∷ w) (spaced ws) (IsSolid-IsLine (c ∷ w) h) (spaced-IsLine ws hs)
