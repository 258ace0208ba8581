-- ===== src/Redact/Match.antt =====
-- How package regexp searches and replaces, for the patterns of internal/redact/redact.go.
use routestack_agent.Base.{
  ℕ, zero, suc, ◌+◌, ◌-◌, Text, Bool, true, false, [], ◌∷◌, ◌++◌, Option, none, some, length, leb,
  ◌==◌, ◌&&◌, ◌||◌, if◌then◌else◌,
}

-- [0-9A-Za-z_]
unfoldable pub is_word : ℕ → Bool
is_word c =
    (leb b'0' c && leb c b'9')
    || (leb b'A' c && leb c b'Z')
    || (leb b'a' c && leb c b'z')
    || c == b'_'

-- \s
unfoldable pub is_blank_char : ℕ → Bool
is_blank_char c = c == 9 || c == 10 || c == 12 || c == 13 || c == 32

-- A match at a position: what takes its place, and the number of characters after its first one.
abbrev pub Matcher : Type 0
Matcher = Option ℕ → Text → Option (Text × ℕ)

-- ReplaceAllString, from a position on, while the given number of characters is left out.
unfoldable pub replace_from : Matcher → ℕ → Option ℕ → Text → Text
replace_from m skip prev [] = []
replace_from m zero prev (c ∷ s) = elim (m prev (c ∷ s)) [
  | none ↦ c ∷ replace_from m zero (some c) s
  | some (new, more) ↦ new ++ replace_from m more (some c) s
]
replace_from m (suc k) prev (c ∷ s) = replace_from m k (some c) s

-- MatchString, from a position on.
unfoldable pub has_match : Matcher → Option ℕ → Text → Bool
has_match m prev [] = false
has_match m prev (c ∷ s) = elim (m prev (c ∷ s)) [ none ↦ has_match m (some c) s | some _ ↦ true ]

-- if pattern.MatchString(s) { s = pattern.ReplaceAllString(s, …) }
unfoldable pub pass : Matcher → Text → Text
pass m s = if has_match m none s then replace_from m 0 none s else s

-- The rest after a word.
unfoldable pub strip : Text → Text → Option Text
strip [] s = some s
strip (p ∷ ps) [] = none
strip (p ∷ ps) (c ∷ s) = if p == c then strip ps s else none

-- (?i) on a letter in lower case: ſ folds to s, and the Kelvin sign to k.
unfoldable pub folds_to : ℕ → ℕ → Bool
folds_to p c =
    p == (if leb b'A' c && leb c b'Z' then c + 32 else c)
    || (p == b's' && c == 0x17f)
    || (p == b'k' && c == 0x212a)

unfoldable pub strip_fold : Text → Text → Option Text
unfolding folds_to
strip_fold [] s = some s
strip_fold (p ∷ ps) [] = none
strip_fold (p ∷ ps) (c ∷ s) = if folds_to p c then strip_fold ps s else none

-- The rest after as many characters of a class as there are.
unfoldable pub drop_while : (ℕ → Bool) → Text → Text
drop_while f [] = []
drop_while f (c ∷ s) = let rest = drop_while f s in if f c then rest else c ∷ s

-- One character of a class or more.
unfoldable pub some_of : (ℕ → Bool) → Text → Option Text
unfolding drop_while
some_of f [] = none
some_of f (c ∷ s) = if f c then some (drop_while f s) else none

abbrev pub first_of : Option Text → Option Text → Option Text
first_of (some s) other = some s
first_of none other = other

-- The characters of `s` before its end `rest`.
unfoldable pub front : ℕ → Text → Text
front zero s = []
front (suc n) [] = []
front (suc n) (c ∷ s) = c ∷ front n s

-- The match of `s` whose group ends where `value` starts and which ends where `rest` starts.
abbrev pub replaced_value : Text → Text → Text → Text → Text × ℕ
unfolding front
replaced_value new s value rest =
    (front (length s - length value) s ++ new, length s - length rest - 1)
