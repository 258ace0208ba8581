-- ===== src/Json/Decode.antt =====
-- How encoding/json fills a struct from an object: keys match a field's tag up to case folding, a
-- later key overrides an earlier one, null leaves the field alone, and a value of the wrong type
-- leaves it alone too and makes Unmarshal return an error.
use routestack_agent.Base.Assoc
use routestack_agent.Base.{
  ℕ, ℤ, Text, Bool, true, false, List, [], ◌∷◌, map, text_eq, leb, ◌==◌, ◌-◌, ◌&&◌, if◌then◌else◌,
  Option, none, some,
}

mutual
  pub data Json : Type 0 where
    null : Json
    bool : Bool → Json
    num : ℤ → Json
    -- a number that no int64 holds
    other_number : Text → Json
    str : Text → Json
    arr : Items → Json
    obj : Fields → Json

  pub data Items : Type 0 where
    nil : Items
    cons : Json → Items → Items

  pub data Fields : Type 0 where
    end : Fields
    field : Text → Json → Fields → Fields

-- foldRune of encoding/json, on the code points whose folded form is ASCII.
fold_rune : ℕ → ℕ
fold_rune c =
    if leb b'a' c && leb c b'z'
    then c - 32
    else if c == 0x17f
    then b'S'
    else if c == 0x212a
    then b'K'
    else c

-- A key of an object matches the name of a field.
unfoldable pub names_match : Text → Text → Bool
unfolding fold_rune text_eq
names_match key name = text_eq (map fold_rune key) (map fold_rune name)

-- The value so far, and whether every value met had the right type.
pub record Read (A : Type 0) : Type 0 where
  pub value : A
  pub well_typed : Bool

-- How a struct takes the value of one key.
abbrev pub Setter : Type 0 → Type 0
Setter A = Text → Json → Read A → Read A

module _ {A : Type 0} where
  unfoldable pub mistyped : Read A → Read A
  mistyped r = record r { well_typed = false }

  unfoldable pub fold_fields : Setter A → Fields → Read A → Read A
  fold_fields set end r = r
  fold_fields set (field key v rest) r = fold_fields set rest (set key v r)

  -- json.Unmarshal into a struct.
  unfoldable pub unmarshal : Setter A → A → Json → Read A
  unfolding fold_fields mistyped
  unmarshal set zero null = record { value = zero; well_typed = true }
  unmarshal set zero (obj fs) = fold_fields set fs (record { value = zero; well_typed = true })
  unmarshal set zero _ = record { value = zero; well_typed = false }

  -- A field of type string. `put` replaces the field.
  unfoldable pub set_text : Json → (Text → A) → Read A → Read A
  unfolding mistyped
  set_text null put r = r
  set_text (str s) put r = record r { value = put s }
  set_text _ put r = mistyped r

  -- A field of type int or int64.
  unfoldable pub set_int : Json → (ℤ → A) → Read A → Read A
  unfolding mistyped
  set_int null put r = r
  set_int (num n) put r = record r { value = put n }
  set_int _ put r = mistyped r

  unfoldable pub set_bool : Json → (Bool → A) → Read A → Read A
  unfolding mistyped
  set_bool null put r = r
  set_bool (bool b) put r = record r { value = put b }
  set_bool _ put r = mistyped r

-- A []T, with the element's own way to read a value onto its zero value; null is the empty slice.
module _ {B : Type 0} (element : Json → Read B) where
  unfoldable pub read_items : Items → Read (List B)
  read_items nil = record { value = []; well_typed = true }
  read_items (cons v rest) =
      let r = element v in
      let rs = read_items rest in
      record { value = r.value ∷ rs.value; well_typed = r.well_typed && rs.well_typed }

  unfoldable pub set_list : {A : Type 0} → Json → (List B → A) → Read A → Read A
  unfolding read_items mistyped
  set_list null put r = record r { value = put [] }
  set_list (arr items) put r =
      let rs = read_items items in
      record { value = put rs.value; well_typed = r.well_typed && rs.well_typed }
  set_list _ put r = mistyped r

-- An element of type string.
unfoldable pub text_element : Json → Read Text
unfolding set_text
text_element v = set_text v (λ s. s) (record { value = []; well_typed = true })

module _ {A B : Type 0} where
  -- A field that is a struct: its keys are read onto what it holds.
  unfoldable pub set_struct : Setter B → B → Json → (B → A) → Read A → Read A
  unfolding fold_fields mistyped
  set_struct set old null put r = r
  set_struct set old (obj fs) put r =
      let rb = fold_fields set fs (record { value = old; well_typed = true }) in
      record { value = put rb.value; well_typed = r.well_typed && rb.well_typed }
  set_struct set old _ put r = mistyped r

  -- A field that is a pointer to a struct: null is nil.
  unfoldable pub set_pointer : Setter B → B → Json → (Option B → A) → Read A → Read A
  unfolding set_struct
  set_pointer set zero null put r = record r { value = put none }
  set_pointer set zero v put r = set_struct set zero v (λ b. put (some b)) r

unfoldable pub map_setter : Setter (List (Text × Text))
unfolding set_text
map_setter key null r = record r { value = Assoc.insert key [] r.value }
map_setter key v r = set_text v (λ s. Assoc.insert key s r.value) r

-- A map[string]string: null is the nil map, and a null value is the empty string.
unfoldable pub set_map :
    {A : Type 0} → List (Text × Text) → Json → (List (Text × Text) → A) → Read A → Read A
unfolding map_setter set_struct
set_map old null put r = record r { value = put [] }
set_map old v put r = set_struct map_setter old v put r
