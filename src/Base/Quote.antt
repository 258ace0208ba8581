-- ===== src/Base/Quote.antt =====
-- strconv.Quote, which the verb %q prints by, and the tables of package unicode that it and
-- strings.ToLower read. The tables are given only for code points above U+007F.
use Prim.Native.Nat.{ℕ, ◌+◌, ◌/◌, ◌%◌}
use mathlib.Core.Path.{◌≡◌, refl}
use mathlib.Core.Bool.{◌||◌}
use mathlib.Core.List.{[], ◌∷◌, ◌++◌, flat_map}
use routestack_agent.Base.Tests.{ltb, leb, ◌==◌, if◌then◌else◌}
use routestack_agent.Base.Strings.{Text, codes}

pub record Unicode : Type 0 where
  -- unicode.ToLower
  pub lower : ℕ → ℕ
  -- the code point itself where it is printable, and an escape \u or \U where it is not
  pub quoted : ℕ → Text

hex_digit : ℕ → ℕ
hex_digit n = if ltb n 10 then b'0' + n else b'a' + n % 10

-- The code point c between two marks.
escape : Unicode → ℕ → ℕ → Text
unfolding hex_digit
escape U mark c =
    if c == mark || c == b'\\'
    then b'\\' ∷ c ∷ []
    else if leb 0x20 c
    then (if ltb c 0x7f then c ∷ [] else if c == 0x7f then codes "\\x7f" else U.quoted c)
    else if c == 7
    then codes "\\a"
    else if c == 8
    then codes "\\b"
    else if c == 9
    then codes "\\t"
    else if c == 10
    then codes "\\n"
    else if c == 11
    then codes "\\v"
    else if c == 12
    then codes "\\f"
    else if c == 13
    then codes "\\r"
    else codes "\\x" ++ (hex_digit (c / 16) ∷ hex_digit (c % 16) ∷ [])

unfoldable pub quote : Unicode → Text → Text
unfolding escape flat_map
quote U s = b'"' ∷ flat_map (escape U b'"') s ++ b'"' ∷ []

-- %q of a byte, which is printed as a character.
unfoldable pub quote_char : Unicode → ℕ → Text
unfolding escape
quote_char U c = codes "'" ++ escape U b'\'' c ++ codes "'"

abbrev pub ascii_only : Unicode
ascii_only = record { lower = λ c. c; quoted = λ c. c ∷ [] }

quote_test : quote ascii_only (codes "a\"\n") ≡ codes "\"a\\\"\\n\""
unfolding quote
quote_test = refl
