-- ===== src/Redact.antt =====
-- internal/redact/redact.go. Its four patterns are matched the way package regexp matches them:
-- leftmost, alternatives in order, repetitions greedily, \b between a word character of ASCII and
-- anything else, (?i) up to simple case folding.
mod Match
pub mod Kept
pub mod Uuid
unfoldable pub use Match.*
use routestack_agent.Base.{
  ℕ, zero, suc, ◌+◌, ◌-◌, Text, Bool, true, false, List, [], ◌∷◌, ◌++◌, Option, none, some, codes,
  length, is_empty, ltb, leb, ◌==◌, ◌&&◌, ◌||◌, not, if◌then◌else◌, ◌≡◌, refl,
}

abbrev pub marker : Text
marker = codes "[REDACTED]"

-- The character before a position, if there is one.
abbrev pub after_word : Option ℕ → Bool
unfolding is_word
after_word none = false
after_word (some c) = is_word c

abbrev pub starts_word : Text → Bool
unfolding is_word
starts_word [] = false
starts_word (c ∷ s) = is_word c

-- \s*=\s*
unfoldable pub strip_equals : Text → Option Text
unfolding drop_while is_blank_char
strip_equals s = elim (drop_while is_blank_char s) [
  | [] ↦ none
  | c ∷ t ↦ if c == b'=' then some (drop_while is_blank_char t) else none
]

-- [A-Za-z0-9+/=_-]
unfoldable pub is_key_char : ℕ → Bool
unfolding is_word
is_key_char c = is_word c || c == b'+' || c == b'/' || c == b'=' || c == b'-'

-- The value after a group, which some_of or an alternative ends.
abbrev with_value : Text → Text → Option Text → (Text → Option Text) → Option (Text × ℕ)
with_value new s none value = none
with_value new s (some start) value = elim (value start) [
  | none ↦ none
  | some rest ↦ some (replaced_value new s start rest)
]

abbrev and_then : Option Text → (Text → Option Text) → Option Text
and_then none f = none
and_then (some s) f = f s

-- wireGuardKeyPattern
unfoldable pub wire_guard_key : Matcher
unfolding strip strip_equals some_of is_key_char front
wire_guard_key prev s =
    if after_word prev
    then none
    else with_value marker s
        (and_then (first_of (strip (codes "PrivateKey") s) (strip (codes "PresharedKey") s))
          strip_equals)
        (some_of is_key_char)

-- [^\s,;&]
unfoldable pub is_password_char : ℕ → Bool
unfolding is_blank_char
is_password_char c = not (is_blank_char c || c == b',' || c == b';' || c == b'&')

-- passwordPattern
unfoldable pub password : Matcher
unfolding strip_fold some_of is_password_char front
password prev s =
    if after_word prev
    then none
    else with_value marker s (strip_fold (codes "password=") s) (some_of is_password_char)

-- "[^"\\]*(?:\\.[^"\\]*)*" after its first character: the dot is no newline.
unfoldable pub close_quote : Text → Option Text
close_quote [] = none
close_quote (c ∷ []) = if c == b'"' then some [] else none
close_quote (c ∷ d ∷ s) =
    let escaped = close_quote s in
    let more = close_quote (d ∷ s) in
    if c == b'"'
    then some (d ∷ s)
    else if c == b'\\'
    then (if d == 10 then none else escaped)
    else more

-- [^,\s}\]]
unfoldable pub is_bare_char : ℕ → Bool
unfolding is_blank_char
is_bare_char c = not (c == b',' || is_blank_char c || c == b'}' || c == b']')

unfoldable pub json_value : Text → Option Text
unfolding close_quote some_of is_bare_char
json_value [] = none
json_value (c ∷ s) =
    first_of (if c == b'"' then close_quote s else none) (some_of is_bare_char (c ∷ s))

-- \s*:\s*
unfoldable pub strip_colon : Text → Option Text
unfolding drop_while is_blank_char
strip_colon s = elim (drop_while is_blank_char s) [
  | [] ↦ none
  | c ∷ t ↦ if c == b':' then some (drop_while is_blank_char t) else none
]

-- The first of the names that the text starts with, in any case, with its closing quote.
unfoldable pub strip_name : List Text → Text → Option Text
unfolding strip_fold
strip_name [] s = none
strip_name (n ∷ ns) s = first_of (strip_fold (n ++ codes "\"") s) (strip_name ns s)

abbrev pub secret_names : List Text
secret_names =
    codes "privatekey"
    ∷ codes "preshared_key"
    ∷ codes "secret"
    ∷ codes "password"
    ∷ codes "uuid"
    ∷ []

-- jsonSecretPattern
unfoldable pub json_secret : Matcher
unfolding strip strip_name strip_colon json_value front
json_secret prev s =
    with_value (codes "\"" ++ marker ++ codes "\"") s
      (and_then (and_then (strip (codes "\"") s) (strip_name secret_names)) strip_colon) json_value

-- [0-9a-fA-F]
unfoldable pub is_hex : ℕ → Bool
is_hex c = (leb b'0' c && leb c b'9') || (leb b'a' c && leb c b'f') || (leb b'A' c && leb c b'F')

-- The rest after one character of each class.
unfoldable pub strip_classes : List (ℕ → Bool) → Text → Option Text
strip_classes [] s = some s
strip_classes (f ∷ fs) [] = none
strip_classes (f ∷ fs) (c ∷ s) = if f c then strip_classes fs s else none

abbrev pub hexes : ℕ → List (ℕ → Bool)
hexes zero = []
hexes (suc n) = is_hex ∷ hexes n

abbrev pub dash : ℕ → Bool
dash c = c == b'-'

-- The classes of a UUID after its first character, without its last group.
abbrev pub uuid_groups : List (ℕ → Bool)
uuid_groups = hexes 7 ++ dash ∷ (hexes 4 ++ dash ∷ (hexes 4 ++ dash ∷ (hexes 4 ++ dash ∷ [])))

abbrev pub uuid_tail : List (ℕ → Bool)
uuid_tail = uuid_groups ++ hexes 12

abbrev ends_here : Option Text → Bool
ends_here none = false
ends_here (some rest) = not (starts_word rest)

-- A UUID starts here, between word boundaries.
unfoldable pub is_uuid : Option ℕ → Text → Bool
unfolding is_word is_hex strip_classes
is_uuid prev [] = false
is_uuid prev (c ∷ s) = (not (after_word prev) && is_hex c) && ends_here (strip_classes uuid_tail s)

-- uuidPattern: a match has 36 characters.
unfoldable pub uuid : Matcher
unfolding is_uuid
uuid prev s = if is_uuid prev s then some (marker, 35) else none

-- RedactSecrets
unfoldable pub redact_secrets : Text → Text
unfolding pass has_match replace_from wire_guard_key password json_secret uuid
redact_secrets s =
    if is_empty s then s else pass uuid (pass json_secret (pass password (pass wire_guard_key s)))

-- SafeError, of the message of an error
unfoldable pub safe_error : Option Text → Text
unfolding redact_secrets
safe_error none = []
safe_error (some message) = redact_secrets message

wire_guard_test :
    redact_secrets (codes "x\nPrivateKey =  aB/9= PrivateKey=z")
    ≡ codes "x\nPrivateKey =  [REDACTED] PrivateKey=[REDACTED]"
unfolding redact_secrets
wire_guard_test = refl

json_test :
    redact_secrets (codes "{\"Secret\" : \"a\\\"b\", \"uuid\":12} PASSWORD=x,y")
    ≡ codes "{\"Secret\" : \"[REDACTED]\", \"uuid\":\"[REDACTED]\"} PASSWORD=[REDACTED],y"
unfolding redact_secrets
json_test = refl

uuid_test :
    redact_secrets (codes "id 01234567-89ab-cdef-0123-456789abcdef.") ≡ codes "id [REDACTED]."
unfolding redact_secrets
uuid_test = refl
