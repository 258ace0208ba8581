-- ===== src/Docker/Create/Request.antt =====
-- What a create request holds (buildCreateRequest of internal/docker/client.go).
use routestack_agent.Base.{
  Text, sym, All, ◌≢◌, ◌⊎◌, inl, inr, Bool-cases, text_eq_iff, text_eq_sound, List, [], ◌∷◌, ◌++◌,
  Option, none, some, codes, text_eq, is_empty, ◌||◌, ◌≡◌, refl, ap, ◌∙◌, arith, if◌then◌else◌,
}
use routestack_agent.Base.Assoc.{lookup, insert, lookup-insert}
use routestack_agent.Json.{Json, cons, nil, str, arr, obj, end, field}
use routestack_agent.Docker.Types.{ContainerSpec, PortMapping, VolumeMount}
use routestack_agent.Docker.Client.{texts, decode}
use routestack_agent.Docker.Client.Calls.{checked-calls}
use routestack_agent.World.{World, History, http}
use routestack_agent.Docker.Create.{
  Entry, value, object, build_create_request, port_bindings, exposed_ports, binds, to_fields,
  create, create_request,
}

-- What a port mapping is exposed and bound as. The keys of a map that a later mapping repeats are
-- written again.
abbrev pub key_of : PortMapping → Text
key_of p = p.container_port ++ codes "/" ++ p.protocol

abbrev pub host_port_json : PortMapping → Json
host_port_json p = arr (cons (obj (field (codes "HostPort") (str p.host_port) end)) nil)

abbrev pub exposed : List PortMapping → List (Text × Json) → List (Text × Json)
exposed [] m = m
exposed (p ∷ ps) m = exposed ps (insert (key_of p) (obj end) m)

abbrev pub bound : List PortMapping → List (Text × Json) → List (Text × Json)
bound [] m = m
bound (p ∷ ps) m = bound ps (insert (key_of p) (host_port_json p) m)

abbrev pub mounts : List VolumeMount → List Text
mounts [] = []
mounts (v ∷ vs) =
    (v.source
      ++ codes ":"
      ++ v.target
      ++ codes ":"
      ++ (elim v.mode [ [] ↦ codes "rw" | c ∷ cs ↦ c ∷ cs ]))
    ∷ mounts vs

exposed-exposed_ports :
    (ps : List PortMapping) (m : List (Text × Json)) → exposed_ports ps m ≡ exposed ps m
unfolding exposed_ports
exposed-exposed_ports [] m = refl
exposed-exposed_ports (p ∷ ps) m = exposed-exposed_ports ps (insert (key_of p) (obj end) m)

bound-port_bindings :
    (ps : List PortMapping) (m : List (Text × Json)) → port_bindings ps m ≡ bound ps m
unfolding port_bindings
bound-port_bindings [] m = refl
bound-port_bindings (p ∷ ps) m = bound-port_bindings ps (insert (key_of p) (host_port_json p) m)

mode_or_rw :
    (mode : Text)
    → (if is_empty mode then codes "rw" else mode)
      ≡ (elim mode [ [] ↦ codes "rw" | c ∷ cs ↦ c ∷ cs ])
mode_or_rw [] = refl
mode_or_rw (c ∷ cs) = refl

mounts-binds : (vs : List VolumeMount) → binds vs ≡ mounts vs
mounts-binds [] = refl
mounts-binds (v ∷ vs) = rw (mounts-binds vs) (
    ap (λ mode. (v.source ++ codes ":" ++ v.target ++ codes ":" ++ mode) ∷ mounts vs)
      (mode_or_rw v.mode))

-- The entries of the request and of HostConfig, each there exactly if the spec asks for it.
abbrev pub exposed_entry : List PortMapping → List (Text × Json) → Option Entry
exposed_entry [] m = none
exposed_entry (p ∷ ps) m = some (object m)

abbrev pub ports_entry : List PortMapping → List (Text × Json) → List (Text × Json)
ports_entry [] m = []
ports_entry (p ∷ ps) m = (codes "PortBindings", obj (to_fields m)) ∷ []

abbrev pub volumes_entry : List VolumeMount → List Text → List (Text × Json)
volumes_entry [] ts = []
volumes_entry (v ∷ vs) ts = (codes "Binds", arr (texts ts)) ∷ []

abbrev pub restart_entry : Text → List (Text × Json)
restart_entry policy =
    if is_empty policy || text_eq policy (codes "no")
    then []
    else (codes "RestartPolicy", obj (field (codes "Name") (str policy) end)) ∷ []

abbrev pub host_entry : List (Text × Json) → Option Entry
host_entry [] = none
host_entry (e ∷ es) = some (object (e ∷ es))

abbrev pub list_entry : List Text → Option Entry
list_entry [] = none
list_entry (e ∷ es) = some (value (arr (texts (e ∷ es))))

request_of :
    (name image restart : Text) (cmd env : List Text) (ports : List PortMapping)
    (volumes : List VolumeMount)
    → let req = build_create_request (record {
      name = name;
      image = image;
      ports = ports;
      volumes = volumes;
      env = env;
      restart = restart;
      cmd = cmd;
    }) in
      (lookup (codes "Labels") req
        ≡ some (object ((codes "managed-by", str (codes "routestack")) ∷ [])))
      × (lookup (codes "Image") req ≡ some (value (str image)))
      × (lookup (codes "Cmd") req ≡ list_entry cmd)
      × (lookup (codes "Env") req ≡ list_entry env)
      × (lookup (codes "ExposedPorts") req ≡ exposed_entry ports (exposed_ports ports []))
      × (lookup (codes "HostConfig") req
          ≡ host_entry (
              ports_entry ports (port_bindings ports [])
              ++ volumes_entry volumes (binds volumes)
              ++ restart_entry restart))
unfolding build_create_request lookup insert
request_of name image restart [] [] [] [] = ground arith
request_of name image restart _ _ _ _ = ground arith

-- The request of every spec is labelled as managed by routestack and names the image. It has a
-- command and an environment exactly if the spec lists any, and exposes ports exactly if the spec maps
-- any: each container port with its protocol. Its host configuration holds the bindings of these ports
-- to the host ports, the volumes with their modes, "rw" where a mode is empty, and the restart policy,
-- each exactly where the spec has ports, volumes, and a policy other than "" and "no", and is missing
-- where it has none of them.
pub build_create_request-entries :
    (spec : ContainerSpec)
    → let req = build_create_request spec in
      (lookup (codes "Labels") req
        ≡ some (object ((codes "managed-by", str (codes "routestack")) ∷ [])))
      × (lookup (codes "Image") req ≡ some (value (str spec.image)))
      × (lookup (codes "Cmd") req ≡ list_entry spec.cmd)
      × (lookup (codes "Env") req ≡ list_entry spec.env)
      × (lookup (codes "ExposedPorts") req ≡ exposed_entry spec.ports (exposed spec.ports []))
      × (lookup (codes "HostConfig") req
          ≡ host_entry (
              ports_entry spec.ports (bound spec.ports [])
              ++ volumes_entry spec.volumes (mounts spec.volumes)
              ++ restart_entry spec.restart))
build_create_request-entries spec = rw (sym (exposed-exposed_ports spec.ports [])) (
    rw (sym (bound-port_bindings spec.ports [])) (
      rw (sym (mounts-binds spec.volumes))
        (request_of spec.name spec.image spec.restart spec.cmd spec.env spec.ports spec.volumes)))

-- The last mapping of the list whose container port and protocol spell this key.
pub record IsLast (key : Text) (p : PortMapping) (ps : List PortMapping) : Type 0 where
  pub before : List PortMapping
  pub after : List PortMapping
  pub split : ps ≡ before ++ p ∷ after
  pub spelled : p.container_port ++ codes "/" ++ p.protocol ≡ key
  pub last : All (λ (q : PortMapping). q.container_port ++ codes "/" ++ q.protocol ≢ key) after

abbrev pub NoMapping : Text → List PortMapping → Type 0
NoMapping key ps = All (λ (q : PortMapping). q.container_port ++ codes "/" ++ q.protocol ≢ key) ps

ports-onto :
    (key : Text) (ps : List PortMapping) (b e : List (Text × Json))
    → (NoMapping key ps
        × (lookup key (port_bindings ps b) ≡ lookup key b)
        × (lookup key (exposed_ports ps e) ≡ lookup key e))
      ⊎ ((p : PortMapping) × IsLast key p ps
          × (lookup key (port_bindings ps b) ≡ some (host_port_json p))
          × (lookup key (exposed_ports ps e) ≡ some (obj end)))
unfolding port_bindings exposed_ports
ports-onto key [] b e = inl (tt, refl, refl)
ports-onto key (p ∷ ps) b e =
    let put = lookup-insert (key_of p) key (host_port_json p) b in
    let open_it = lookup-insert (key_of p) key (obj end) e in
    elim (ports-onto key ps (insert (key_of p) (host_port_json p) b)
      (insert (key_of p) (obj end) e)) [
        | inr (q, found, f, g) ↦ inr (
          q,
          record {
            before = p ∷ found.before;
            after = found.after;
            split = ap (λ qs. p ∷ qs) found.split;
            spelled = found.spelled;
            last = found.last;
          },
          f,
          g,
        )
        | inl (none_after, f, g) ↦ elim (Bool-cases (text_eq (key_of p) key)) [
          | inl same ↦ inr (
            p,
            record {
              before = [];
              after = ps;
              split = refl;
              spelled = text_eq_sound (key_of p) key same;
              last = none_after;
            },
            f ∙ (put ∙ rw same refl),
            g ∙ (open_it ∙ rw same refl),
          )
          | inr other ↦ inl (
            (λ k. ground (arith, text_eq_iff (key_of p) key), none_after),
            f ∙ (put ∙ rw other refl),
            g ∙ (open_it ∙ rw other refl),
          )
        ]
      ]

-- A container port with a protocol is exposed and bound exactly if a mapping of the spec spells it, and
-- it is bound to the host port of the last mapping that does, and to no other host port.
pub lookup-port_bindings :
    (key : Text) (ps : List PortMapping)
    → (NoMapping key ps
        × (lookup key (port_bindings ps []) ≡ none)
        × (lookup key (exposed_ports ps []) ≡ none))
      ⊎ ((p : PortMapping) × IsLast key p ps
          × (lookup key (port_bindings ps [])
              ≡ some (arr (cons (obj (field (codes "HostPort") (str p.host_port) end)) nil)))
          × (lookup key (exposed_ports ps []) ≡ some (obj end)))
unfolding lookup
lookup-port_bindings key ps = ports-onto key ps [] []

pub create-calls :
    (W : World) (spec : ContainerSpec) (h : History)
    → (create W spec h).1 ≡ http (create_request spec) ∷ h
unfolding create decode
create-calls W spec h =
    ground (arith, checked-calls W (codes "docker create " ++ spec.name) (create_request spec) h)
