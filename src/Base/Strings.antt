-- ===== src/Base/Strings.antt =====
-- Go strings as lists of code points: the strings of the program come from encoding/json, yaml and
-- its own literals, which are valid UTF-8. `bytes` is the encoding that `len` and `s[i]` work on.
use Prim.Native.Nat.{ℕ, zero, suc, ◌+◌, ◌/◌, ◌%◌}
use Prim.Native.Char.{code}
use Prim.Native.String.{String}
use mathlib.Core.Path.{◌≡◌, refl}
use mathlib.Core.Logic.{◌↔◌}
use mathlib.Core.Bool.{Bool, true, false, ◌&&◌, ◌||◌}
use mathlib.Core.List.{List, [], ◌∷◌, ◌++◌, reverse, tail}
use native.Mathlib.Omega.{arith}
use routestack_agent.Base.Tests.{ltb, leb, ◌==◌, if◌then◌else◌}

abbrev pub Text : Type 0
Text = List ℕ

-- The code points of a literal.
abbrev pub codes : String → Text
codes String.[] = []
codes (String.◌∷◌ c s) = code c ∷ codes s

-- s == t
unfoldable pub text_eq : Text → Text → Bool
text_eq [] [] = true
text_eq [] (d ∷ t) = false
text_eq (c ∷ s) [] = false
text_eq (c ∷ s) (d ∷ t) = c == d && text_eq s t

pub text_eq_sound : (s t : Text) → text_eq s t ≡ true → s ≡ t
unfolding text_eq
text_eq_sound [] [] h = refl
text_eq_sound [] (d ∷ t) h = cc
text_eq_sound (c ∷ s) [] h = cc
text_eq_sound (c ∷ s) (d ∷ t) h = ground (arith, text_eq_sound s t)

pub text_eq_refl : (s : Text) → text_eq s s ≡ true
unfolding text_eq
text_eq_refl [] = refl
text_eq_refl (c ∷ s) = ground (arith, text_eq_refl s)

pub text_eq_iff : (s t : Text) → (text_eq s t ≡ true) ↔ (s ≡ t)
text_eq_iff s t = (text_eq_sound s t, λ e. rw e (text_eq_refl t))

-- s == ""
abbrev pub is_empty : Text → Bool
is_empty [] = true
is_empty (c ∷ s) = false

-- strings.HasPrefix(s, prefix)
unfoldable pub has_prefix : Text → Text → Bool
has_prefix s [] = true
has_prefix [] (d ∷ t) = false
has_prefix (c ∷ s) (d ∷ t) = c == d && has_prefix s t

-- strings.Contains(s, sub)
unfoldable pub contains : Text → Text → Bool
unfolding has_prefix
contains [] t = has_prefix [] t
contains (c ∷ s) t = has_prefix (c ∷ s) t || contains s t

-- strings.HasSuffix(s, suffix)
unfoldable pub has_suffix : Text → Text → Bool
unfolding text_eq
has_suffix [] t = text_eq [] t
has_suffix (c ∷ s) t = text_eq (c ∷ s) t || has_suffix s t

-- strings.TrimPrefix(s, prefix)
unfoldable pub trim_prefix : Text → Text → Text
trim_prefix s [] = s
trim_prefix [] (d ∷ t) = []
trim_prefix (c ∷ s) (d ∷ t) =
    let rest = trim_prefix s t in if c == d && has_prefix s t then rest else c ∷ s

-- strings.TrimSuffix(s, suffix)
unfoldable pub trim_suffix : Text → Text → Text
unfolding text_eq
trim_suffix [] t = []
trim_suffix (c ∷ s) t = let rest = c ∷ trim_suffix s t in if text_eq (c ∷ s) t then [] else rest

-- strings.Split(s, sep), for a separator of one ASCII character.
abbrev pub cons_first : ℕ → List Text → List Text
cons_first c [] = (c ∷ []) ∷ []
cons_first c (p ∷ ps) = (c ∷ p) ∷ ps

unfoldable pub split : ℕ → Text → List Text
split sep [] = [] ∷ []
split sep (c ∷ s) = if c == sep then [] ∷ split sep s else cons_first c (split sep s)

-- filepath.Clean of a path that begins with '/'.
clean_onto : List Text → List Text → List Text
clean_onto done [] = reverse done
clean_onto done (part ∷ parts) =
    clean_onto
      (if is_empty part || text_eq part (codes ".")
        then done
        else if text_eq part (codes "..")
        then tail done
        else part ∷ done)
      parts

-- unicode.IsSpace
unfoldable pub is_space : ℕ → Bool
is_space c =
    (leb 9 c && leb c 13)
    || c == 0x20
    || c == 0x85
    || c == 0xa0
    || c == 0x1680
    || (leb 0x2000 c && leb c 0x200a)
    || c == 0x2028
    || c == 0x2029
    || c == 0x202f
    || c == 0x205f
    || c == 0x3000

unfoldable pub trim_left : Text → Text
unfolding is_space
trim_left [] = []
trim_left (c ∷ s) = let rest = trim_left s in if is_space c then rest else c ∷ s

-- What stays of `s` when the spaces at its end go.
unfoldable pub trim_right : Text → Text
unfolding is_space
trim_right [] = []
trim_right (c ∷ s) = let rest = trim_right s in if is_empty rest && is_space c then [] else c ∷ rest

-- strings.TrimSpace
unfoldable pub trim_space : Text → Text
unfolding trim_left trim_right
trim_space s = trim_right (trim_left s)

-- strings.TrimSpace(s) == ""
unfoldable pub is_blank : Text → Bool
unfolding trim_space
is_blank s = is_empty (trim_space s)

-- The UTF-8 encoding of a code point.
unfoldable pub encode_rune : ℕ → List ℕ
encode_rune c =
    if ltb c 0x80
    then c ∷ []
    else if ltb c 0x800
    then (0xc0 + c / 64) ∷ (0x80 + c % 64) ∷ []
    else if ltb c 0x10000
    then (0xe0 + c / 4096) ∷ (0x80 + c / 64 % 64) ∷ (0x80 + c % 64) ∷ []
    else (0xf0 + c / 262144) ∷ (0x80 + c / 4096 % 64) ∷ (0x80 + c / 64 % 64) ∷ (0x80 + c % 64) ∷ []

-- []byte(s)
unfoldable pub bytes : Text → List ℕ
unfolding encode_rune
bytes [] = []
bytes (c ∷ s) = encode_rune c ++ bytes s

-- strings.Join(ss, sep)
unfoldable pub join : List Text → Text → Text
join [] sep = []
join (s ∷ []) sep = s
join (s ∷ t ∷ ss) sep = s ++ sep ++ join (t ∷ ss) sep

unfoldable pub clean_rooted : Text → Text
unfolding clean_onto split join text_eq
clean_rooted path = codes "/" ++ join (clean_onto [] (split b'/' path)) (codes "/")

without_empty : List Text → List Text
without_empty [] = []
without_empty (p ∷ ps) = let rest = without_empty ps in if is_empty p then rest else p ∷ rest

-- filepath.Join, where the first element begins with '/'.
unfoldable pub join_path : List Text → Text
unfolding clean_rooted without_empty
join_path parts = clean_rooted (join (without_empty parts) (codes "/"))

unfoldable pub digits_onto : ℕ → ℕ → Text → Text
digits_onto zero n out = out
digits_onto (suc fuel) n out =
    let more = digits_onto fuel (n / 10) ((b'0' + n % 10) ∷ out) in
    if ltb n 10 then (b'0' + n) ∷ out else more

-- strconv.Itoa of a number that is not negative. A number has fewer digits than one more than it.
unfoldable pub decimal : ℕ → Text
unfolding digits_onto
decimal n = digits_onto (suc n) n []

space_test : trim_space (codes " \t a b\n") ≡ codes "a b"
unfolding trim_space
space_test = refl

decimal_test : decimal 1204 ≡ codes "1204"
unfolding decimal
decimal_test = refl

suffix_test : has_suffix (codes "abcab") (codes "cab") ≡ true
unfolding has_suffix
suffix_test = refl

path_test : join_path (codes "/etc/x" ∷ codes "a.b" ∷ codes "../c" ∷ []) ≡ codes "/etc/x/c"
unfolding join_path
path_test = refl
