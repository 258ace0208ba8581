-- ===== src/Handlers/Payload/Printed.antt =====
-- The payload of APPLY_SERVICE_REVISION in contracts/operations.json, and what
-- internal/executor/handlers.go reads of it.
use routestack_agent.Base.{
  Text, true, List, [], ◌∷◌, ◌++◌, some, codes, ◌≡◌, refl, ap, ◌∙◌, append-nil, append_assoc,
}
use routestack_agent.Base.Assoc
use routestack_agent.Json.{
  Json, Items, Fields, str, num, arr, obj, nil, cons, end, field, Read, unmarshal, fold_fields,
  names_match, set_text, set_int, set_list, set_struct, set_map, map_setter, read_items,
  text_element,
}
use routestack_agent.World.{World, ok}
use routestack_agent.Service.Spec.{Port, Volume, Spec}
use routestack_agent.Handlers.Payload.{
  decode_payload, port_setter, no_port, volume_setter, no_volume, spec_setter, no_spec,
  ServiceRevision, no_revision, revision_setter,
}

abbrev pub items : {A : Type 0} → (A → Json) → List A → Items
items print [] = nil
items print (a ∷ l) = cons (print a) (items print l)

abbrev pub port_json : Port → Json
port_json p = obj (
    field (codes "host_port") (str p.host_port) (
      field (codes "container_port") (str p.container_port)
        (field (codes "protocol") (str p.protocol) end)))

abbrev pub volume_json : Volume → Json
volume_json v = obj (
    field (codes "source") (str v.source)
      (field (codes "target") (str v.target) (field (codes "mode") (str v.mode) end)))

abbrev pub env_fields : List (Text × Text) → Fields
env_fields [] = end
env_fields ((name, value) ∷ env) = field name (str value) (env_fields env)

abbrev pub spec_fields : Spec → Fields
spec_fields s = field (codes "image") (str s.image) (
    field (codes "command") (arr (items str s.command)) (
      field (codes "ports") (arr (items port_json s.ports)) (
        field (codes "volumes") (arr (items volume_json s.volumes)) (
          field (codes "env") (obj (env_fields s.env))
            (field (codes "restart") (str s.restart) end)))))

abbrev pub revision_json : ServiceRevision → Json
revision_json p = obj (
    field (codes "service_id") (str p.service_id) (
      field (codes "revision") (num p.revision)
        (field (codes "spec") (obj (spec_fields p.spec)) end)))

read_items-items :
    {A : Type 0} (element : Json → Read A) (print : A → Json) (l : List A)
    → ((a : A) → element (print a) ≡ record { value = a; well_typed = true })
    → read_items element (items print l) ≡ record { value = l; well_typed = true }
unfolding read_items
read_items-items element print [] back = refl
read_items-items element print (a ∷ l) back =
    rw (back a, read_items-items element print l back) refl

read-port_json :
    (p : Port)
    → unmarshal port_setter no_port (port_json p) ≡ record { value = p; well_typed = true }
unfolding unmarshal fold_fields port_setter names_match set_text
read-port_json p = refl

read-volume_json :
    (v : Volume)
    → unmarshal volume_setter no_volume (volume_json v) ≡ record { value = v; well_typed = true }
unfolding unmarshal fold_fields volume_setter names_match set_text
read-volume_json v = refl

fold-env_fields :
    (seen env : List (Text × Text))
    → Assoc.IsMap seen env
    → fold_fields map_setter (env_fields env) (record { value = seen; well_typed = true })
      ≡ record { value = seen ++ env; well_typed = true }
unfolding fold_fields map_setter set_text
fold-env_fields seen [] h = rw (append-nil seen) refl
fold-env_fields seen ((k, v) ∷ env) (new, rest) =
    ap (λ m. fold_fields map_setter (env_fields env) (record { value = m; well_typed = true }))
      (Assoc.insert-fresh k v seen new)
    ∙ fold-env_fields (seen ++ (k, v) ∷ []) env rest
    ∙ ap (λ m. record { value = m; well_typed = true }) (append_assoc seen ((k, v) ∷ []) env)

read-spec_fields :
    (s : Spec)
    → Assoc.IsMap [] s.env
    → fold_fields spec_setter (spec_fields s) (record { value = no_spec; well_typed = true })
      ≡ record { value = s; well_typed = true }
unfolding fold_fields spec_setter names_match set_text set_list set_map set_struct text_element
read-spec_fields s h =
    rw
      (
        read_items-items text_element str s.command (λ t. refl),
        read_items-items (unmarshal port_setter no_port) port_json s.ports read-port_json,
        read_items-items (unmarshal volume_setter no_volume) volume_json s.volumes read-volume_json,
        fold-env_fields [] s.env h,
      )
      refl

-- A printed revision is read back.
pub decode_payload-revision_json :
    (W : World) (p : ServiceRevision)
    → Assoc.IsMap [] p.spec.env
    → decode_payload W revision_setter no_revision (some (revision_json p)) ≡ ok p
unfolding decode_payload unmarshal fold_fields revision_setter names_match set_text set_int
    set_struct
decode_payload-revision_json W p h = rw (read-spec_fields p.spec h) refl
