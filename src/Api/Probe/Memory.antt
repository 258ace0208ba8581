-- ===== src/Api/Probe/Memory.antt =====
-- What memoryUsedMB of internal/api/heartbeat_linux.go reads of /proc/meminfo.
use routestack_agent.Base.{
  ℕ, zero, suc, ◌-◌, ◌/◌, ◌^◌, ◌≤◌, ◌<◌, Text, Bool, false, List, [], ◌∷◌, ◌++◌, map, some, codes,
  ◌≡◌, refl, ◌∙◌, ap, arith, All, All-append, length, bytes, decimal, is_space, ◌==◌, ◌&&◌, ◌||◌,
  pos, is_zero, text_eq, has_prefix, scan_lines, fields, starts_field, if◌then◌else◌, Bool-cases,
  inl, inr,
}
use routestack_agent.Base.LineLaws.{
  IsWord, IsSolid, IsLine, spaced, decimal-IsWord, fields-append, fields-spaced,
  starts_field-spaced, IsSolid-IsLine, spaced-IsLine, scan_lines-line,
}
use routestack_agent.Base.Decimals.{parse_int-decimal}
use routestack_agent.Api.Probe.{meminfo_value, proc_meminfo_field, used_memory, kilo, minus_int64}

-- A line of /proc/meminfo: a key, spaces, a value, and its unit if it has one.
pub record Entry : Type 0 where
  pub key : Text
  pub padding : ℕ
  pub value : ℕ
  pub unit : List Text

abbrev pub blanks : ℕ → Text → Text
blanks zero s = s
blanks (suc n) s = 32 ∷ blanks n s

abbrev pub values : Entry → Text
values e = blanks e.padding (spaced (decimal e.value ∷ e.unit))

abbrev pub printed : Entry → Text
printed e = (e.key ++ codes ":") ++ values e

-- /proc/meminfo
abbrev pub meminfo : List Entry → Text
meminfo [] = []
meminfo (e ∷ es) = printed e ++ 10 ∷ meminfo es

abbrev pub has_colon : Text → Bool
has_colon [] = false
has_colon (c ∷ s) = (c == b':') || has_colon s

pub record IsEntry (e : Entry) : Type 0 where
  pub solid : IsSolid e.key
  pub plain : has_colon e.key ≡ false
  pub small : e.value < 2 ^ 63
  pub words : All IsWord e.unit
  pub fits : length (bytes (printed e)) < 65536

-- The value of the first entry with the key, or 0.
abbrev pub value_of : Text → List Entry → ℕ
value_of key [] = 0
value_of key (e ∷ es) = if text_eq e.key key then e.value else value_of key es

blanks-IsLine : (n : ℕ) (s : Text) → IsLine s → IsLine (blanks n s)
blanks-IsLine zero s h = h
blanks-IsLine (suc n) s h = ((refl, refl), blanks-IsLine n s h)

fields-blanks : (n : ℕ) (s : Text) → fields (blanks n s) ≡ fields s
unfolding fields is_space
fields-blanks zero s = refl
fields-blanks (suc n) s = fields-blanks n s

starts_field-blanks : (n : ℕ) (ws : List Text) → starts_field (blanks n (spaced ws)) ≡ false
unfolding starts_field is_space
starts_field-blanks zero ws = starts_field-spaced ws
starts_field-blanks (suc n) ws = refl

keyed-IsSolid : (e : Entry) → IsEntry e → IsSolid (e.key ++ codes ":")
unfolding is_space
keyed-IsSolid e h = All-append _ e.key (codes ":") h.solid (refl, tt)

fields-solid :
    (w s : Text)
    → IsSolid (w ++ codes ":")
    → starts_field s ≡ false
    → fields ((w ++ codes ":") ++ s) ≡ (w ++ codes ":") ∷ fields s
fields-solid [] s h e = fields-append b':' [] s h e
fields-solid (c ∷ w) s h e = fields-append c (w ++ codes ":") s h e

printed-IsLine : (e : Entry) → IsEntry e → IsLine (printed e)
printed-IsLine e h =
    All-append _ (e.key ++ codes ":") (values e) (IsSolid-IsLine _ (keyed-IsSolid e h)) (
      blanks-IsLine e.padding _
        (spaced-IsLine (decimal e.value ∷ e.unit) (decimal-IsWord e.value, h.words)))

fields-printed :
    (e : Entry) → IsEntry e → fields (printed e) ≡ (e.key ++ codes ":") ∷ decimal e.value ∷ e.unit
fields-printed e h =
    fields-solid e.key (values e) (keyed-IsSolid e h)
      (starts_field-blanks e.padding (decimal e.value ∷ e.unit))
    ∙ ap (λ ws. (e.key ++ codes ":") ∷ ws)
        (fields-blanks e.padding _
          ∙ fields-spaced (decimal e.value ∷ e.unit) (decimal-IsWord e.value, h.words))

has_prefix-keyed :
    (key k t : Text)
    → has_colon key ≡ false
    → has_colon k ≡ false
    → has_prefix ((key ++ codes ":") ++ t) (k ++ codes ":") ≡ text_eq key k
unfolding has_prefix text_eq
has_prefix-keyed [] [] [] hk h = refl
has_prefix-keyed [] [] (c ∷ t) hk h = refl
has_prefix-keyed [] (d ∷ k) t hk h = ground arith
has_prefix-keyed (c ∷ key) [] t hk h = ground arith
has_prefix-keyed (c ∷ key) (d ∷ k) t hk h =
    ap (λ b. (c == d) && b) (has_prefix-keyed key k t (ground arith) (ground arith))

scan_lines-meminfo : (es : List Entry) → All IsEntry es → scan_lines (meminfo es) ≡ map printed es
unfolding scan_lines
scan_lines-meminfo [] h = refl
scan_lines-meminfo (e ∷ es) (h, hs) =
    scan_lines-line (printed e) (meminfo es) (printed-IsLine e h) h.fits
    ∙ ap (λ l. printed e ∷ l) (scan_lines-meminfo es hs)

meminfo_value-printed :
    (key : Text) (es : List Entry)
    → has_colon key ≡ false
    → All IsEntry es
    → meminfo_value key (map printed es) ≡ pos (value_of key es)
unfolding meminfo_value
meminfo_value-printed key [] plain h = refl
meminfo_value-printed key (e ∷ es) plain (h, hs) =
    rw
      (
        meminfo_value,
        has_prefix-keyed e.key key (values e) h.plain plain,
        fields-printed e h,
        parse_int-decimal e.value h.small,
      )
      (elim (Bool-cases (text_eq e.key key)) [
        | inl same ↦ rw same refl
        | inr other ↦ rw other (meminfo_value-printed key es plain hs)
      ])

value_of-small : (key : Text) (es : List Entry) → All IsEntry es → value_of key es < 2 ^ 63
value_of-small key [] h = omega arith
value_of-small key (e ∷ es) (h, hs) = elim (Bool-cases (text_eq e.key key)) [
  | inl same ↦ rw same h.small
  | inr other ↦ rw other (value_of-small key es hs)
]

used :
    (total available : ℕ)
    → available ≤ total
    → total < 2 ^ 63
    → (if is_zero (pos total) then pos 0 else kilo (minus_int64 (pos total) (pos available)))
      ≡ pos ((total - available) / 1024)
used total available less small = ground arith

-- If each line of /proc/meminfo, at the first and at the second reading, has a key without colons
-- and spaces, a colon, at least one space, a value below 2^63 in decimal, and possibly more words,
-- and fits the scanner's buffer: memoryUsedMB gives the first MemTotal of the first reading less the
-- first MemAvailable of the second, where that is not greater, divided by 1024; a key without a line
-- counts as 0.
pub used_memory-meminfo :
    (first second : List Entry)
    → All IsEntry first
    → All IsEntry second
    → let total = value_of (codes "MemTotal") first in
      let available = value_of (codes "MemAvailable") second in
      available ≤ total
      → used_memory (some (meminfo first)) (some (meminfo second))
        ≡ pos ((total - available) / 1024)
unfolding used_memory proc_meminfo_field
used_memory-meminfo first second h h' less =
    rw
      (
        used_memory,
        scan_lines-meminfo first h,
        scan_lines-meminfo second h',
        meminfo_value-printed (codes "MemTotal") first refl h,
        meminfo_value-printed (codes "MemAvailable") second refl h',
      )
      (used _ _ less (value_of-small _ first h))
