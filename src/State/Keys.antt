-- ===== src/State/Keys.antt =====
-- The revisions of a loaded state have distinct keys (LoadState of internal/state/state.go).
use routestack_agent.Base.{
  ℤ, Text, false, List, [], ◌∷◌, ◌++◌, Option, none, ◌≡◌, refl, arith, inl, inr, text_eq,
  text_eq_iff, codes, All, Bool-cases, Option-cases,
}
use routestack_agent.Base.Assoc.{lookup, NodupKeys, insert-NodupKeys}
use routestack_agent.Json.{
  Json, Fields, null, bool, num, other_number, str, arr, obj, end, field, Setter, Read, mistyped,
  fold_fields, unmarshal, names_match, set_text, set_int, set_struct,
}
use routestack_agent.World.{World, Result-cases, ok}
use routestack_agent.Files.{Disk}
use routestack_agent.State.{
  AgentState, fresh_state, revision_entry, set_revisions, saved_setter, parse_state, load_state,
}
use routestack_agent.Base.Assoc.{IsMap}

-- What every key of an object keeps.
fold_fields-keeps :
    {A : Type 0} (P : A → Type 0) (set : Setter A)
    → ((key : Text) (v : Json) (r : Read A) → P r.value → P (set key v r).value)
    → (fs : Fields) (r : Read A) → P r.value
    → P (fold_fields set fs r).value
unfolding fold_fields
fold_fields-keeps P set step end r h = h
fold_fields-keeps P set step (field key v fs) r h =
    fold_fields-keeps P set step fs (set key v r) (step key v r h)

revision_entry-NodupKeys :
    (key : Text) (v : Json) (r : Read (List (Text × ℤ)))
    → NodupKeys r.value
    → NodupKeys (revision_entry key v r).value
unfolding revision_entry set_int mistyped
revision_entry-NodupKeys key null r h = insert-NodupKeys key _ r.value h
revision_entry-NodupKeys key (num n) r h = insert-NodupKeys key n r.value h
revision_entry-NodupKeys key (bool b) r h = h
revision_entry-NodupKeys key (other_number t) r h = h
revision_entry-NodupKeys key (str t) r h = h
revision_entry-NodupKeys key (arr items) r h = h
revision_entry-NodupKeys key (obj fs) r h = h

abbrev HasKeys : AgentState → Type 0
HasKeys s = NodupKeys s.last_known_revisions

set_text-HasKeys :
    (v : Json) (put : Text → AgentState) (r : Read AgentState)
    → ((s : Text) → HasKeys (put s))
    → HasKeys r.value
    → HasKeys (set_text v put r).value
unfolding set_text mistyped
set_text-HasKeys null put r p h = h
set_text-HasKeys (str s) put r p h = p s
set_text-HasKeys (bool b) put r p h = h
set_text-HasKeys (num n) put r p h = h
set_text-HasKeys (other_number t) put r p h = h
set_text-HasKeys (arr items) put r p h = h
set_text-HasKeys (obj fs) put r p h = h

set_revisions-HasKeys :
    (v : Json) (r : Read AgentState)
    → HasKeys r.value
    → HasKeys
        (set_revisions r.value.last_known_revisions v
          (λ m. record r.value { last_known_revisions = m })
          r).value
unfolding set_revisions set_struct mistyped
set_revisions-HasKeys null r h = tt
set_revisions-HasKeys (obj fs) r h =
    fold_fields-keeps NodupKeys revision_entry revision_entry-NodupKeys fs _ h
set_revisions-HasKeys (bool b) r h = h
set_revisions-HasKeys (num n) r h = h
set_revisions-HasKeys (other_number t) r h = h
set_revisions-HasKeys (str s) r h = h
set_revisions-HasKeys (arr items) r h = h

saved_setter-HasKeys :
    (key : Text) (v : Json) (r : Read AgentState)
    → HasKeys r.value
    → HasKeys (saved_setter key v r).value
unfolding saved_setter
saved_setter-HasKeys key v r h = elim (Bool-cases (names_match key (codes "node_id"))) [
  | inl e ↦ rw (saved_setter, e) (set_text-HasKeys v _ r (λ s. h) h)
  | inr e ↦ elim (Bool-cases (names_match key (codes "cert_path"))) [
    | inl e' ↦ rw (saved_setter, e, e') (set_text-HasKeys v _ r (λ s. h) h)
    | inr e' ↦ elim (Bool-cases (names_match key (codes "key_path"))) [
      | inl e'' ↦ rw (saved_setter, e, e', e'') (set_text-HasKeys v _ r (λ s. h) h)
      | inr e'' ↦ elim (Bool-cases (names_match key (codes "last_known_revisions"))) [
        | inl f ↦ rw (saved_setter, e, e', e'', f) (set_revisions-HasKeys v r h)
        | inr f ↦ rw (saved_setter, e, e', e'', f) h
      ]
    ]
  ]
]

unmarshal-HasKeys : (v : Json) → HasKeys (unmarshal saved_setter fresh_state v).value
unfolding unmarshal
unmarshal-HasKeys null = tt
unmarshal-HasKeys (obj fs) = fold_fields-keeps HasKeys saved_setter saved_setter-HasKeys fs _ tt
unmarshal-HasKeys (bool b) = tt
unmarshal-HasKeys (num n) = tt
unmarshal-HasKeys (other_number t) = tt
unmarshal-HasKeys (str s) = tt
unmarshal-HasKeys (arr items) = tt

parse_state-HasKeys :
    (W : World) (path text : Text) (s : AgentState) → parse_state W path text ≡ ok s → HasKeys s
unfolding parse_state
parse_state-HasKeys W path text s h = elim (Result-cases (W.parse text)) [
  | inr (e, bad) ↦ let refused = rw (parse_state, bad) at h in absurd cc
  | inl (v, good) ↦
      let read = rw (parse_state, good) at h in
      elim (Bool-cases (unmarshal saved_setter fresh_state v).well_typed) [
        | inr t ↦ let refused = rw t at read in absurd cc
        | inl t ↦
            let taken = rw t at read in
            let same : (unmarshal saved_setter fresh_state v).value ≡ s = cc in
            rw same at (unmarshal-HasKeys v)
      ]
]

nothing_yet : HasKeys fresh_state
nothing_yet = tt

-- What LoadState gives.
pub load_state-NodupKeys :
    (W : World) (fault : Option Text) (path : Text) (d : Disk) (s : AgentState)
    → load_state W fault path d ≡ ok s
    → NodupKeys s.last_known_revisions
unfolding load_state
load_state-NodupKeys W fault path d s h = elim (Option-cases (lookup path d)) [
  | inl e ↦
      let fresh = rw (load_state, e) at h in
      let same : fresh_state ≡ s = cc in rw (← same) nothing_yet
  | inr (text, e) ↦ elim (Option-cases fault) [
    | inr (m, f) ↦ let refused = rw (load_state, e, f) at h in absurd cc
    | inl f ↦ parse_state-HasKeys W path text s (rw (load_state, e, f) at h)
  ]
]

-- A new key is in none of the maps.
abbrev Absent : List (Text × ℤ) → List (Text × ℤ) → Type 0
Absent seen m = All (λ p. lookup p.0 seen ≡ none) m

lookup-snoc :
    (j k : Text) (n : ℤ) (seen : List (Text × ℤ))
    → lookup j seen ≡ none
    → text_eq k j ≡ false
    → lookup j (seen ++ (k, n) ∷ []) ≡ none
unfolding lookup
lookup-snoc j k n [] h e = rw e refl
lookup-snoc j k n ((i, x) ∷ seen) h e = ground (arith, lookup-snoc j k n seen)

Absent-snoc :
    (k : Text) (n : ℤ) (seen m : List (Text × ℤ))
    → Absent seen m
    → lookup k m ≡ none
    → Absent (seen ++ (k, n) ∷ []) m
unfolding lookup
Absent-snoc k n seen [] a h = tt
Absent-snoc k n seen ((j, x) ∷ m) (aj, am) h =
    let other : text_eq k j ≡ false = ground (arith, text_eq_iff k j, text_eq_iff j k) in
    let rest : lookup k m ≡ none = ground (arith, text_eq_iff k j, text_eq_iff j k) in
    (lookup-snoc j k n seen aj other, Absent-snoc k n seen m am rest)

NodupKeys-IsMap : (seen m : List (Text × ℤ)) → Absent seen m → NodupKeys m → IsMap seen m
NodupKeys-IsMap seen [] a u = tt
NodupKeys-IsMap seen ((k, n) ∷ m) (ak, am) (fresh, u) =
    (ak, NodupKeys-IsMap (seen ++ (k, n) ∷ []) m (Absent-snoc k n seen m am fresh) u)

Absent-none : (m : List (Text × ℤ)) → Absent [] m
unfolding lookup
Absent-none [] = tt
Absent-none (p ∷ m) = (refl, Absent-none m)

pub load_state-IsMap :
    (W : World) (fault : Option Text) (path : Text) (d : Disk) (s : AgentState)
    → load_state W fault path d ≡ ok s
    → IsMap [] s.last_known_revisions
load_state-IsMap W fault path d s h =
    NodupKeys-IsMap [] s.last_known_revisions (Absent-none s.last_known_revisions)
      (load_state-NodupKeys W fault path d s h)
