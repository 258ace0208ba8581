-- ===== src/State.antt =====
-- internal/state/state.go: the state file. Save is in Files.
pub mod Restore
pub mod Keys
use routestack_agent.Base.{
  ℤ, pos, Text, Bool, true, false, List, [], ◌∷◌, ◌++◌, Option, none, some, codes, is_empty, ◌||◌,
  not, if◌then◌else◌,
}
use routestack_agent.Base.Assoc.{lookup, insert, has}
use routestack_agent.Json.{
  Json, Fields, null, num, str, obj, end, field, Setter, Read, names_match, unmarshal, set_text,
  set_int, set_struct,
}
use routestack_agent.World.{World, Result, ok, err}
use routestack_agent.Files.{Disk}

-- The map of revisions has its keys in the order of an encoder, which sorts them.
pub record AgentState : Type 0 where
  pub node_id : Text
  pub cert_path : Text
  pub key_path : Text
  pub last_known_revisions : List (Text × ℤ)

abbrev pub fresh_state : AgentState
fresh_state = record { node_id = []; cert_path = []; key_path = []; last_known_revisions = [] }

-- An entry of a map[string]int: null is 0.
unfoldable pub revision_entry : Setter (List (Text × ℤ))
unfolding set_int
revision_entry key null r = record r { value = insert key (pos 0) r.value }
revision_entry key v r = set_int v (λ n. insert key n r.value) r

-- The map itself: null is the nil map, in whose place LoadState puts an empty one.
unfoldable pub set_revisions :
    {A : Type 0} → List (Text × ℤ) → Json → (List (Text × ℤ) → A) → Read A → Read A
unfolding set_struct
set_revisions old null put r = record r { value = put [] }
set_revisions old v put r = set_struct revision_entry old v put r

unfoldable pub saved_setter : Setter AgentState
unfolding set_revisions
saved_setter key v r =
    let old = r.value in
    if names_match key (codes "node_id")
    then set_text v (λ s. record old { node_id = s }) r
    else if names_match key (codes "cert_path")
    then set_text v (λ s. record old { cert_path = s }) r
    else if names_match key (codes "key_path")
    then set_text v (λ s. record old { key_path = s }) r
    else if names_match key (codes "last_known_revisions")
    then set_revisions old.last_known_revisions v (λ m. record old { last_known_revisions = m }) r
    else r

abbrev pub revision_fields : List (Text × ℤ) → Fields
revision_fields [] = end
revision_fields ((k, n) ∷ m) = field k (num n) (revision_fields m)

-- What json.MarshalIndent prints of a state.
abbrev pub state_json : AgentState → Json
state_json s = obj (
    field (codes "node_id") (str s.node_id) (
      field (codes "cert_path") (str s.cert_path) (
        field (codes "key_path") (str s.key_path) (
          field (codes "last_known_revisions") (obj (revision_fields s.last_known_revisions))
            end))))

-- IsEnrolled: os.Stat finds what is on the disk.
unfoldable pub is_enrolled : AgentState → Disk → Bool
is_enrolled s d =
    if is_empty s.node_id || is_empty s.cert_path || is_empty s.key_path
    then false
    else if not (has s.cert_path d)
    then false
    else if not (has s.key_path d)
    then false
    else true

module _ (W : World) where
  -- json.Unmarshal of the file into the state.
  unfoldable pub parse_state : Text → Text → Result AgentState
  unfolding saved_setter unmarshal
  parse_state path text = elim (W.parse text) [
    | err e ↦ err (codes "parse state file " ++ path ++ codes ": " ++ e)
    | ok v ↦
        let r = unmarshal saved_setter fresh_state v in
        if r.well_typed
        then ok r.value
        else err (codes "parse state file " ++ path ++ codes ": " ++ W.type_error)
  ]

  -- LoadState, where a read may fail on a file that exists.
  unfoldable pub load_state : Option Text → Text → Disk → Result AgentState
  load_state fault path d = elim (lookup path d) [
    | none ↦ ok fresh_state
    | some text ↦ elim fault [
      | some e ↦ err (codes "read state file " ++ path ++ codes ": " ++ e)
      | none ↦ parse_state path text
    ]
  ]
