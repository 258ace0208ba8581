-- ===== src/Docker/Find.antt =====
-- List and FindContainer of internal/docker/client.go.
pub mod Match
use routestack_agent.Base.{
  Text, Bool, true, false, List, [], ◌∷◌, ◌++◌, Option, none, some, codes, text_eq, trim_prefix,
  quote, not, ◌&&◌, ◌||◌, if◌then◌else◌,
}
use routestack_agent.Json.{Json, null, arr, Read, read_items}
use routestack_agent.World.{World, M, Result, ok, err, ◌>>=◌, pure, lift, attempt, wrap, send}
use routestack_agent.Docker.Types.{ContainerInfo, info_element}
use routestack_agent.Docker.Client.{api, accept, inspect}

-- KnownContainerNames
abbrev pub known_names : List Text
known_names = codes "amnezia-awg2" ∷ codes "amnezia-xray" ∷ codes "telemt" ∷ []

-- json.NewDecoder(resp.Body).Decode into a []ContainerInfo.
containers : Json → Read (List ContainerInfo)
unfolding read_items info_element
containers null = record { value = []; well_typed = true }
containers (arr items) = read_items info_element items
containers _ = record { value = []; well_typed = false }

-- The names of a container in a list start with '/'.
abbrev pub clean : Text → Text
clean n = trim_prefix n (codes "/")

abbrev pub is_known : Text → List Text → Bool
is_known n [] = false
is_known n (k ∷ ks) = text_eq n k || is_known n ks

-- One of the names of a container is the wanted one or a known one.
abbrev pub names_fit : Text → List Text → Bool
names_fit name [] = false
names_fit name (n ∷ ns) =
    (text_eq (clean n) name || is_known (clean n) known_names) || names_fit name ns

-- The loops over the listed containers.
unfoldable pub first_listed : Text → List ContainerInfo → Text
first_listed name [] = []
first_listed name (c ∷ cs) =
    let rest = first_listed name cs in if names_fit name c.names then c.id else rest

module _ (W : World) where
  filters : List (Text × Text) → Text
  filters [] = []
  filters ((k, v) ∷ labels) =
      codes "&filters={\"label\":{"
      ++ quote W.unicode (k ++ codes "=" ++ v)
      ++ codes ":true}}"
      ++ filters labels

  default_filter : List (Text × Text) → Text
  default_filter [] = codes "&filters={\"label\":{\"managed-by=routestack\":true}}"
  default_filter (_ ∷ _) = []

  -- List. The labels come in the order in which the map is iterated over.
  unfoldable pub list : List (Text × Text) → M (List ContainerInfo)
  unfolding filters default_filter containers
  list labels = do
    let query = filters labels ++ default_filter labels
    resp ←
        wrap (codes "docker list: ")
          (send W (api (codes "GET") (codes "containers/json?all=true" ++ query) none))
    wrap (codes "docker list: decode: ")
        do v ← lift (W.parse_first resp.body); lift (accept W (containers v))

  -- if state, err := c.Inspect(ctx, k); err == nil && state != nil { return state.ID, nil }
  unfoldable pub inspected_or : Text → M Text → M Text
  inspected_or k otherwise = do
    r ← attempt (inspect W k)
    elim r [ ok state ↦ pure state.id | err e ↦ otherwise ]

  -- The loop over the known names, with what follows it.
  unfoldable pub try_known : Text → List Text → M Text → M Text
  try_known name [] otherwise = otherwise
  try_known name (k ∷ ks) otherwise =
      let rest = try_known name ks otherwise in if text_eq k name then rest else inspected_or k rest

  -- The search among the labelled containers.
  unfoldable pub search_list : Text → M Text
  search_list name = do
    cs ← wrap (codes "find container " ++ name ++ codes ": ") (list [])
    pure (first_listed name cs)

  -- FindContainer; the empty text is "not found".
  unfoldable pub find_container : Text → M Text
  find_container name = inspected_or name (try_known name known_names (search_list name))
