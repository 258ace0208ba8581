-- ===== src/Base/Decimals.antt =====
-- Signed numbers, read back from the digits that they are printed with.
use Prim.Native.Nat.{ℕ, zero, suc, ◌+◌, ◌/◌, ◌%◌, ◌^◌, ◌<◌}
use mathlib.Core.Path.{◌≡◌}
use mathlib.Core.Logic.{inl, inr}
use mathlib.Core.Bool.{true}
use mathlib.Core.List.{[], ◌∷◌}
use native.Mathlib.Omega.{arith}
use routestack_agent.Base.Int.{pos}
use routestack_agent.Base.Tests.{ltb, Bool-cases}
use routestack_agent.Base.Strings.{Text, digits_onto, decimal}
use routestack_agent.Base.Lines.{is_digit, parse_uint, parse_int}
use routestack_agent.Base.LineLaws.{parse_uint-decimal}

abbrev StartsDigit : Text → Type 0
StartsDigit [] = ⊥
StartsDigit (c ∷ s) = is_digit c ≡ true

digits_onto-StartsDigit :
    (fuel n : ℕ) (out : Text) → n < fuel → StartsDigit (digits_onto fuel n out)
unfolding digits_onto
digits_onto-StartsDigit zero n out enough = absurd (omega arith)
digits_onto-StartsDigit (suc fuel) n out enough = elim (Bool-cases (ltb n 10)) [
  | inl e ↦ rw e (ground arith)
  | inr e ↦ rw e (digits_onto-StartsDigit fuel (n / 10) ((b'0' + n % 10) ∷ out) (ground arith))
]

parse_int-unsigned :
    (s : Text) (n : ℕ) → StartsDigit s → parse_uint s ≡ n → n < 2 ^ 63 → parse_int s ≡ pos n
unfolding parse_int
parse_int-unsigned [] n first e small = absurd first
parse_int-unsigned (c ∷ s) n first e small = ground arith

pub parse_int-decimal : (n : ℕ) → n < 2 ^ 63 → parse_int (decimal n) ≡ pos n
unfolding decimal
parse_int-decimal n small =
    parse_int-unsigned (decimal n) n (digits_onto-StartsDigit (suc n) n [] (omega arith))
      (parse_uint-decimal n (omega arith)) small
