-- ===== src/Base/TextLaws.antt =====
-- Laws of the string functions of Base/Strings.
use Prim.Native.Nat.{◌<◌}
use mathlib.Core.Path.{◌≡◌, refl, ap}
use mathlib.Core.Logic.{inl, inr}
use mathlib.Core.Bool.{true}
use mathlib.Core.List.{[], ◌∷◌, ◌++◌}
use native.Mathlib.Omega.{arith}
use routestack_agent.Base.Tests.{Bool-cases}
use routestack_agent.Base.Lists.{length, All}
use routestack_agent.Base.Strings.{
  Text, text_eq, text_eq_sound, text_eq_refl, has_prefix, has_suffix, trim_prefix, bytes,
}

-- A prefix that is there and what is left without it make up the text.
pub append-trim_prefix : (s p : Text) → has_prefix s p ≡ true → s ≡ p ++ trim_prefix s p
unfolding has_prefix trim_prefix
append-trim_prefix s [] h = refl
append-trim_prefix [] (d ∷ p) h = cc
append-trim_prefix (c ∷ s) (d ∷ p) h = ground (arith, append-trim_prefix s p)

pub has_prefix-append : (p t : Text) → has_prefix (p ++ t) p ≡ true
unfolding has_prefix
has_prefix-append [] t = go t
  where
    go : (t : Text) → has_prefix t [] ≡ true
    go [] = refl
    go (_ ∷ _) = refl
has_prefix-append (c ∷ p) t = ground (arith, has_prefix-append p t)

pub trim_prefix-append : (p t : Text) → trim_prefix (p ++ t) p ≡ t
unfolding trim_prefix
trim_prefix-append [] t = go t
  where
    go : (t : Text) → trim_prefix t [] ≡ t
    go [] = refl
    go (_ ∷ _) = refl
trim_prefix-append (c ∷ p) t = ground (arith, trim_prefix-append p t, has_prefix-append p t)

abbrev pub EndsWith : Text → Text → Type 0
EndsWith t s = (front : Text) × (s ≡ front ++ t)

pub has_suffix_sound : (s t : Text) → has_suffix s t ≡ true → EndsWith t s
unfolding has_suffix
has_suffix_sound [] t h = ([], text_eq_sound [] t h)
has_suffix_sound (c ∷ s) t h = elim (Bool-cases (text_eq (c ∷ s) t)) [
  | inl e ↦ ([], text_eq_sound (c ∷ s) t e)
  | inr e ↦ let rest = has_suffix_sound s t (ground arith) in (c ∷ rest.0, ap (λ r. c ∷ r) rest.1)
]

pub has_suffix-append : (front t : Text) → has_suffix (front ++ t) t ≡ true
unfolding has_suffix
has_suffix-append [] [] = text_eq_refl []
has_suffix-append [] (c ∷ t) = ground (arith, text_eq_refl (c ∷ t))
has_suffix-append (c ∷ front) t = ground (arith, has_suffix-append front t)

-- ASCII text has as many bytes as code points.
pub length-bytes : (s : Text) → All (λ c. c < 0x80) s → length (bytes s) ≡ length s
unfolding bytes
length-bytes [] h = refl
length-bytes (c ∷ s) h = ground (arith, length-bytes s h.1)
