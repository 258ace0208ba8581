-- ===== src/Base/Lines.antt =====
-- Lines and words of a text, as bufio.Scanner and strings.Fields find them, and the numbers of
-- package strconv.
use Prim.Native.Nat.{ℕ, zero, suc, ◌+◌, ◌-◌, ◌*◌, ◌^◌}
use mathlib.Core.Bool.{Bool, false, not, ◌&&◌}
use mathlib.Core.List.{List, [], ◌∷◌, ◌++◌}
use routestack_agent.Base.Tests.{ltb, leb, ◌==◌, if◌then◌else◌}
use routestack_agent.Base.Lists.{length}
use routestack_agent.Base.Int.{ℤ, pos, negsuc}
use routestack_agent.Base.Strings.{Text, is_empty, is_space, bytes, cons_first}

-- The lines that bufio.Scanner gives: it drops "\r", gives no empty last line, and stops at a line
-- that does not fit its buffer of 64 KiB.
unfoldable pub drop_return : Text → Text
drop_return [] = []
drop_return (c ∷ []) = if c == 13 then [] else c ∷ []
drop_return (c ∷ d ∷ s) = c ∷ drop_return (d ∷ s)

unfoldable pub lines_onto : Text → Text → List Text
lines_onto line [] = if is_empty line then [] else line ∷ []
lines_onto line (c ∷ s) =
    let next = line ∷ lines_onto [] s in
    let more = lines_onto (line ++ c ∷ []) s in if c == 10 then next else more

unfoldable pub fitting : List Text → List Text
fitting [] = []
fitting (l ∷ ls) =
    let rest = drop_return l ∷ fitting ls in if ltb (length (bytes l)) 65536 then rest else []

unfoldable pub scan_lines : Text → List Text
unfolding lines_onto fitting drop_return
scan_lines s = fitting (lines_onto [] s)

-- Whether a text begins with a character that is not a space.
unfoldable pub starts_field : Text → Bool
unfolding is_space
starts_field [] = false
starts_field (c ∷ s) = not (is_space c)

-- strings.Fields
unfoldable pub fields : Text → List Text
unfolding starts_field
fields [] = []
fields (c ∷ s) =
    let rest = fields s in
    if is_space c then rest else if starts_field s then cons_first c rest else (c ∷ []) ∷ rest

abbrev pub is_digit : ℕ → Bool
is_digit c = leb b'0' c && leb c b'9'

abbrev pub max_uint64 : ℕ
max_uint64 = 2 ^ 64 - 1

-- The value of the digits, after digits of the value `n`: 0 on a syntax error, and the greatest value
-- as soon as the digits exceed it.
unfoldable pub digits_from : ℕ → Text → ℕ
digits_from n [] = n
digits_from n (c ∷ s) =
    let next = n * 10 + (c - b'0') in
    let rest = digits_from next s in
    if not (is_digit c) then 0 else if leb (2 ^ 64) next then max_uint64 else rest

-- The value of strconv.ParseUint(s, 10, 64), its error left aside.
unfoldable pub parse_uint : Text → ℕ
parse_uint s = digits_from 0 s

abbrev pub negated : ℕ → ℤ
negated zero = pos zero
negated (suc n) = negsuc n

-- The value of strconv.ParseInt(s, 10, 64), its error left aside.
unfoldable pub parse_int : Text → ℤ
unfolding parse_uint
parse_int [] = pos 0
parse_int (c ∷ s) =
    let plain = parse_uint (c ∷ s) in
    let signed = parse_uint s in
    if c == b'-'
    then (if leb (2 ^ 63) signed then negated (2 ^ 63) else negated signed)
    else if c == b'+'
    then (if leb (2 ^ 63) signed then pos (2 ^ 63 - 1) else pos signed)
    else if leb (2 ^ 63) plain
    then pos (2 ^ 63 - 1)
    else pos plain
