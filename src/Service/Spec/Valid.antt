-- ===== src/Service/Spec/Valid.antt =====
-- Which specs are valid, and what a valid or an invalid one becomes (internal/service/spec.go).
use routestack_agent.Base.{
  ℕ, ◌+◌, Text, false, List, [], ◌∷◌, map, ◌≡◌, ◌≢◌, ◌↔◌, refl, arith, codes, is_blank, All,
}
use routestack_agent.World.{ok}
use routestack_agent.Service.Spec.{
  Port, Volume, Spec, check_ports, check_volumes, validate, to_mapping, to_mount, or_default,
  to_container_spec,
}

abbrev pub IsFull : Port → Type 0
IsFull p = (is_blank p.host_port ≡ false) × (is_blank p.container_port ≡ false)

abbrev pub IsMount : Volume → Type 0
IsMount v = (is_blank v.source ≡ false) × (is_blank v.target ≡ false)

-- An image, and ports and volumes with both ends.
pub record IsComplete (s : Spec) : Type 0 where
  pub image : is_blank s.image ≡ false
  pub ports : All IsFull s.ports
  pub volumes : All IsMount s.volumes

check_ports_sound : (i : ℕ) (ps : List Port) → check_ports i ps ≡ ok tt → All IsFull ps
unfolding check_ports
check_ports_sound i [] h = tt
check_ports_sound i (p ∷ ps) h = ground (arith, check_ports_sound (i + 1) ps)

check_ports_complete : (i : ℕ) (ps : List Port) → All IsFull ps → check_ports i ps ≡ ok tt
unfolding check_ports
check_ports_complete i [] h = refl
check_ports_complete i (p ∷ ps) h = ground (arith, check_ports_complete (i + 1) ps h.1)

check_volumes_sound : (i : ℕ) (vs : List Volume) → check_volumes i vs ≡ ok tt → All IsMount vs
unfolding check_volumes
check_volumes_sound i [] h = tt
check_volumes_sound i (v ∷ vs) h = ground (arith, check_volumes_sound (i + 1) vs)

check_volumes_complete : (i : ℕ) (vs : List Volume) → All IsMount vs → check_volumes i vs ≡ ok tt
unfolding check_volumes
check_volumes_complete i [] h = refl
check_volumes_complete i (v ∷ vs) h = ground (arith, check_volumes_complete (i + 1) vs h.1)

validate_sound : (s : Spec) → validate s ≡ ok tt → IsComplete s
unfolding validate
validate_sound s h = ground (arith, check_ports_sound 0 s.ports, check_volumes_sound 0 s.volumes)

-- Validate accepts a spec exactly if it has an image and every port and every volume has both ends.
pub validate_iff : (s : Spec) → (validate s ≡ ok tt) ↔ IsComplete s
unfolding validate
validate_iff s = (
  validate_sound s,
  λ c.
      ground (
        arith,
        check_ports_complete 0 s.ports c.ports,
        check_volumes_complete 0 s.volumes c.volumes,
      ),
)

or_default-ne-nil : (s d : Text) → d ≢ [] → or_default s d ≢ []
or_default-ne-nil [] d h = h
or_default-ne-nil (c ∷ s) d h = cc

mapped_ports : (ps : List Port) → All (λ p. p.protocol ≢ []) (map to_mapping ps)
mapped_ports [] = tt
mapped_ports (p ∷ ps) = (or_default-ne-nil p.protocol (codes "tcp") cc, mapped_ports ps)

mapped_volumes : (vs : List Volume) → All (λ v. v.mode ≢ []) (map to_mount vs)
mapped_volumes [] = tt
mapped_volumes (v ∷ vs) = (or_default-ne-nil v.mode (codes "rw") cc, mapped_volumes vs)

-- Every port of a container spec has a protocol and every mount a mode, given or not.
to_container_spec-defaults :
    (s : Spec) (service_id : Text)
    → let c = to_container_spec s service_id in
      All (λ p. p.protocol ≢ []) c.ports × All (λ v. v.mode ≢ []) c.volumes
unfolding to_container_spec
to_container_spec-defaults s service_id = (mapped_ports s.ports, mapped_volumes s.volumes)
