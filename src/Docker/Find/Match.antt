-- ===== src/Docker/Find/Match.antt =====
-- Where a container that FindContainer of internal/docker/client.go returns comes from.
use routestack_agent.Base.{
  Text, ◌++◌, none, true, All, sym, List, [], ◌∷◌, ◌≡◌, ◌⊎◌, inl, inr, refl, arith, text_eq, Any,
  Bool-cases, codes, text_eq_sound, trim_prefix, has_prefix, ◌==◌,
}
use routestack_agent.World.{World, HttpRequest, http, send, History, Result, Result-cases, ok, M}
use routestack_agent.Docker.Types.{ContainerState, ContainerInfo}
use routestack_agent.Docker.Client.{api, inspect}
use routestack_agent.Docker.Client.Calls.{inspect-calls}
use routestack_agent.Docker.Find.{
  filters, default_filter, known_names, is_known, names_fit, first_listed, list, try_known,
  search_list, inspected_or, find_container, clean,
}

-- The wanted name, or a name that the agent knows.
abbrev pub IsCandidate : Text → Text → Type 0
IsCandidate name k =
    (k ≡ name) ⊎ (k ≡ codes "amnezia-awg2") ⊎ (k ≡ codes "amnezia-xray") ⊎ (k ≡ codes "telemt")

-- One of the names of a listed container is a candidate, with or without the slash before it.
abbrev pub HasName : Text → List Text → Type 0
HasName name names = Any (λ n. (k : Text) × IsCandidate name k × ((n ≡ b'/' ∷ k) ⊎ (n ≡ k))) names

abbrev pub describing : Text → HttpRequest
describing k = api (codes "GET") (codes "containers/" ++ k ++ codes "/json") none

abbrev pub listing : HttpRequest
listing =
    api (codes "GET")
      (codes "containers/json?all=true&filters={\"label\":{\"managed-by=routestack\":true}}") none

-- The last call was one by which the daemon described a candidate `k` with this ID, or listed a
-- container that has this ID and a candidate for a name.
pub data Origin (W : World) (name id : Text) (last : History) : Type 0 where
  inspected :
      (k : Text) (h : History) (s : ContainerState)
      → IsCandidate name k
      → (inspect W k h).0 ≡ ok s
      → s.id ≡ id
      → last ≡ http (describing k) ∷ h
      → Origin W name id last
  listed :
      (h : History) (cs : List ContainerInfo)
      → (list W [] h).0 ≡ ok cs
      → Any (λ c. HasName name c.names × (c.id ≡ id)) cs
      → last ≡ http listing ∷ h
      → Origin W name id last

known-IsCandidate : (name k : Text) → is_known k known_names ≡ true → IsCandidate name k
known-IsCandidate name k e = ground (
  arith,
  text_eq_sound k (codes "amnezia-awg2"),
  text_eq_sound k (codes "amnezia-xray"),
  text_eq_sound k (codes "telemt"),
)

clean-slash : (n : Text) → (n ≡ b'/' ∷ clean n) ⊎ (n ≡ clean n)
unfolding trim_prefix has_prefix
clean-slash [] = inr refl
clean-slash (c ∷ []) = elim (Bool-cases (c == b'/')) [
  | inl e ↦ inl (ground arith)
  | inr e ↦ inr (ground arith)
]
clean-slash (c ∷ d ∷ n) = elim (Bool-cases (c == b'/')) [
  | inl e ↦ inl (ground arith)
  | inr e ↦ inr (ground arith)
]

names_fit-HasName : (name : Text) (ns : List Text) → names_fit name ns ≡ true → HasName name ns
names_fit-HasName name [] e = absurd (ground arith)
names_fit-HasName name (n ∷ ns) e = elim (Bool-cases (text_eq (clean n) name)) [
  | inl same ↦ inl (clean n, inl (text_eq_sound (clean n) name same), clean-slash n)
  | inr other ↦ elim (Bool-cases (is_known (clean n) known_names)) [
    | inl known ↦ inl (clean n, known-IsCandidate name (clean n) known, clean-slash n)
    | inr unknown ↦ inr (names_fit-HasName name ns (ground arith))
  ]
]

first_listed-Any :
    (name id : Text) (cs : List ContainerInfo)
    → first_listed name cs ≡ id
    → (id ≡ []) ⊎ Any (λ c. HasName name c.names × (c.id ≡ id)) cs
unfolding first_listed
first_listed-Any name id [] e = inl (sym e)
first_listed-Any name id (c ∷ cs) e = elim (Bool-cases (names_fit name c.names)) [
  | inl fits ↦ inr (inl (names_fit-HasName name c.names fits, rw fits at e))
  | inr other ↦ elim (first_listed-Any name id cs (rw other at e)) [
    | inl empty ↦ inl empty
    | inr found ↦ inr (inr found)
  ]
]

known_names-are : All (λ k. is_known k known_names ≡ true) known_names
unfolding text_eq
known_names-are = (refl, (refl, (refl, tt)))

module _ (W : World) (name id : Text) where
  abbrev Answer : Result Text × History → Type 0
  Answer r = r.0 ≡ ok id → (id ≡ []) ⊎ Origin W name id r.1

  list-calls : (h : History) → (list W [] h).1 ≡ http listing ∷ h
  unfolding list send filters default_filter
  list-calls h = ground arith

  search_list-Origin : (h : History) → Answer (search_list W name h)
  unfolding search_list
  search_list-Origin h e = elim (Result-cases (list W [] h).0) [
    | inl (cs, p) ↦ elim (first_listed-Any name id cs (ground arith)) [
      | inl none_fits ↦ inl none_fits
      | inr some_fits ↦ inr (listed h cs p some_fits (ground (arith, list-calls h)))
    ]
    | inr (m, p) ↦ absurd (ground arith)
  ]

  inspected_or-Origin :
      (k : Text) (rest : M Text)
      → IsCandidate name k
      → ((h : History) → Answer (rest h))
      → (h : History) → Answer (inspected_or W k rest h)
  unfolding inspected_or
  inspected_or-Origin k rest candidate later h e = elim (Result-cases (inspect W k h).0) [
    | inl (s, p) ↦
        inr (inspected k h s candidate p (ground arith) (ground (arith, inspect-calls W k h)))
    | inr (m, p) ↦
        let same : inspected_or W k rest h ≡ rest (inspect W k h).1 = ground arith in
        rw same (later (inspect W k h).1 (rw same at e))
  ]

  try_known-Origin :
      (ks : List Text) (rest : M Text)
      → All (λ k. is_known k known_names ≡ true) ks
      → ((h : History) → Answer (rest h))
      → (h : History) → Answer (try_known W name ks rest h)
  unfolding try_known
  try_known-Origin [] rest _ later h e = later h e
  try_known-Origin (k ∷ ks) rest (known, others) later h e = elim (Bool-cases (text_eq k name)) [
    | inl same ↦ rw same (try_known-Origin ks rest others later h (rw same at e))
    | inr other ↦ rw other (
        inspected_or-Origin k (try_known W name ks rest) (known-IsCandidate name k known)
          (try_known-Origin ks rest others later) h (rw other at e))
  ]

  -- Whenever FindContainer answers without an error: its answer is "", or the last call that it made
  -- is one by which the daemon described a container of the wanted name or of one of the three known
  -- names, or listed one that has such a name, with a slash before it or not; and the answer is the ID
  -- of that container.
  pub find_container-Origin :
      (h : History)
      → (find_container W name h).0 ≡ ok id
      → (id ≡ []) ⊎ Origin W name id (find_container W name h).1
  unfolding find_container
  find_container-Origin h e =
      inspected_or-Origin name (try_known W name known_names (search_list W name)) (inl refl)
        (try_known-Origin known_names (search_list W name) known_names-are search_list-Origin) h e
