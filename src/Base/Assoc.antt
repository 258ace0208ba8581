-- ===== src/Base/Assoc.antt =====
-- A Go map with string keys, as a list of entries. The program never depends on their order.

use mathlib.Core.Path.{◌≡◌, refl}
use mathlib.Core.Bool.{Bool, true, false, ◌||◌}
use mathlib.Core.Option.{Option, none, some}
use mathlib.Core.List.{List, [], ◌∷◌, ◌++◌}
use native.Mathlib.Omega.{arith}
use routestack_agent.Base.Tests.{if◌then◌else◌}
use routestack_agent.Base.Strings.{Text, text_eq, text_eq_iff}

abbrev pub is_some {ℓ} : {A : Type ℓ} → Option A → Bool
is_some none = false
is_some (some _) = true

module _ {ℓ} {V : Type ℓ} where
  -- v, ok := m[key]
  unfoldable pub lookup : Text → List (Text × V) → Option V
  unfolding text_eq
  lookup key [] = none
  lookup key ((k, v) ∷ m) = if text_eq k key then some v else lookup key m

  -- m[key] = v
  unfoldable pub insert : Text → V → List (Text × V) → List (Text × V)
  unfolding text_eq
  insert key v [] = (key, v) ∷ []
  insert key v ((k, w) ∷ m) =
      let rest = insert key v m in if text_eq k key then (k, v) ∷ m else (k, w) ∷ rest

  -- The entries whose values pass the test.
  unfoldable pub keep : (V → Bool) → List (Text × V) → List (Text × V)
  keep p [] = []
  keep p ((k, v) ∷ m) = let rest = keep p m in if p v then (k, v) ∷ rest else rest

  abbrev pub has : Text → List (Text × V) → Bool
  has key m = is_some (lookup key m)

  abbrev pub NodupKeys : List (Text × V) → Type ℓ
  NodupKeys [] = Unit
  NodupKeys ((k, _) ∷ m) = (lookup k m ≡ none) × NodupKeys m

  pub lookup-insert :
      (key k : Text) (v : V) (m : List (Text × V))
      → lookup k (insert key v m) ≡ (if text_eq key k then some v else lookup k m)
  unfolding lookup insert
  lookup-insert key k v [] = refl
  lookup-insert key k v ((j, w) ∷ m) =
      ground (arith, text_eq_iff key k, text_eq_iff j key, text_eq_iff j k, lookup-insert key k v m)

  pub has-insert :
      (key k : Text) (v : V) (m : List (Text × V))
      → has k (insert key v m) ≡ (text_eq key k || has k m)
  has-insert key k v m = ground (arith, lookup-insert key k v m)

  pub insert-NodupKeys :
      (key : Text) (v : V) (m : List (Text × V)) → NodupKeys m → NodupKeys (insert key v m)
  unfolding insert lookup
  insert-NodupKeys key v [] _ = (refl, tt)
  insert-NodupKeys key v ((j, w) ∷ m) (fresh, u) = ground (
    arith,
    text_eq_iff j key,
    text_eq_iff key j,
    insert-NodupKeys key v m u,
    lookup-insert key j v m,
  )

  abbrev pub filtered : (V → Bool) → Option V → Option V
  filtered p none = none
  filtered p (some v) = if p v then some v else none

  lookup-keep_none :
      (p : V → Bool) (k : Text) (m : List (Text × V))
      → lookup k m ≡ none
      → lookup k (keep p m) ≡ none
  unfolding lookup keep
  lookup-keep_none p k [] h = refl
  lookup-keep_none p k ((j, w) ∷ m) h = ground (arith, lookup-keep_none p k m)

  pub lookup-keep :
      (p : V → Bool) (k : Text) (m : List (Text × V))
      → NodupKeys m
      → lookup k (keep p m) ≡ filtered p (lookup k m)
  unfolding lookup keep
  lookup-keep p k [] _ = refl
  lookup-keep p k ((j, w) ∷ m) (fresh, u) =
      ground (arith, text_eq_iff j k, lookup-keep p k m u, lookup-keep_none p j m fresh)

  pub keep-NodupKeys : (p : V → Bool) (m : List (Text × V)) → NodupKeys m → NodupKeys (keep p m)
  unfolding keep
  keep-NodupKeys p [] _ = tt
  keep-NodupKeys p ((j, w) ∷ m) (fresh, u) =
      ground (arith, keep-NodupKeys p m u, lookup-keep_none p j m fresh)

  -- No key comes twice, nor is in `seen`.
  abbrev pub IsMap : List (Text × V) → List (Text × V) → Type ℓ
  IsMap seen [] = Unit
  IsMap seen ((k, v) ∷ m) = (lookup k seen ≡ none) × IsMap (seen ++ (k, v) ∷ []) m

  pub insert-fresh :
      (k : Text) (v : V) (m : List (Text × V)) → lookup k m ≡ none → insert k v m ≡ m ++ (k, v) ∷ []
  unfolding insert lookup
  insert-fresh k v [] h = refl
  insert-fresh k v ((j, w) ∷ m) h = ground (arith, text_eq_iff j k, insert-fresh k v m)
