-- ===== src/Service/Manager/Apply.antt =====
-- The calls by which a revision is applied (Manager.ApplyRevision of internal/service/manager.go).
use routestack_agent.Base.{
  ℤ, pos, Text, true, ◌∷◌, ◌++◌, ◌≡◌, ◌⊎◌, ◌↔◌, inl, inr, refl, arith, codes,
}
use routestack_agent.World.{World, History, Result, Result-cases, ok, err, http}
use routestack_agent.Docker.Types.{ContainerState, ContainerSpec}
use routestack_agent.Docker.Client.{
  inspect, stop, remove, start, inspect_request, stop_request, remove_request, start_request,
}
use routestack_agent.Docker.Client.Calls.{inspect-calls, stop-calls, remove-calls, start-calls}
use routestack_agent.Docker.Create.{create, create_request}
use routestack_agent.Docker.Create.Request.{create-calls}
use routestack_agent.Service.Spec.{Spec, validate, container_name, to_container_spec}
use routestack_agent.Service.Spec.Valid.{IsComplete, validate_iff}
use routestack_agent.Service.Manager.{remove_existing, recreate, named, apply_revision}

-- The calls that remove the container which an inspection found, on top of the others.
abbrev pub removal : Result ContainerState → History → History
removal (err e) h = h
removal (ok s) h = http (remove_request s.id true) ∷ http (stop_request s.id (pos 10)) ∷ h

module _ (W : World) (name : Text) where
  removal-calls :
      (r : Result ContainerState) (h : History) → (remove_existing W name r h).1 ≡ removal r h
  unfolding remove_existing
  removal-calls (err e) h = refl
  removal-calls (ok s) h =
      ground
        (arith, stop-calls W s.id (pos 10) h, remove-calls W s.id true (stop W s.id (pos 10) h).1)

-- The old container, if one was found, was removed without an error.
abbrev pub IsGone : World → Result ContainerState → History → Type 0
IsGone W (err e) h = Unit
IsGone W (ok s) h = (remove W s.id true (http (stop_request s.id (pos 10)) ∷ h)).0 ≡ ok tt

module _ (W : World) (name : Text) where
  remove_existing-IsGone :
      (r : Result ContainerState) (h : History)
      → (remove_existing W name r h).0 ≡ ok tt
      → IsGone W r h
  unfolding remove_existing
  remove_existing-IsGone (err e) h p = tt
  remove_existing-IsGone (ok s) h p =
      elim (Result-cases (remove W s.id true (stop W s.id (pos 10) h).1).0) [
        | inl (_, e) ↦ rw (stop-calls W s.id (pos 10) h) at e
        | inr (m, e) ↦ absurd (ground arith)
      ]

  remove_existing-fails :
      (r : Result ContainerState) (h : History) (m : Text)
      → IsGone W r h
      → (remove_existing W name r h).0 ≡ err m
      → ⊥
  unfolding remove_existing
  remove_existing-fails (err e) h m done p = cc p
  remove_existing-fails (ok s) h m done p =
      let gone : (remove W s.id true (stop W s.id (pos 10) h).1).0 ≡ ok tt =
        rw (stop-calls W s.id (pos 10) h) done in
      absurd (ground arith)

-- How far the new container came: the old one was not removed; the new one was not created; or it
-- was created with an ID and its start was asked for, with the result that counts.
abbrev pub Recreated :
    World → ContainerSpec → Result ContainerState → History → Result (Unit {0}) → History → Type 0
Recreated W spec existing h r h' =
    let removed = removal existing h in
    let created = http (create_request spec) ∷ removed in
    ((¬ IsGone W existing h) × ((m : Text) × (r ≡ err m)) × (h' ≡ removed))
    ⊎ (IsGone W existing h
        × ((m : Text) × ((create W spec removed).0 ≡ err m))
        × ((m : Text) × (r ≡ err m))
        × (h' ≡ created))
    ⊎ (IsGone W existing h
        × (id : Text) × ((create W spec removed).0 ≡ ok id)
        × (h' ≡ http (start_request id) ∷ created)
        × ((r ≡ ok tt) ↔ ((start W id created).0 ≡ ok tt)))

module _ (W : World) (name : Text) (spec : ContainerSpec) (existing : Result ContainerState)
    (h : History) where
  abbrev asked : ContainerSpec
  asked = named W name spec

  abbrev removed : History
  removed = removal existing h

  recreate-Recreated :
      let (r, h') = recreate W name spec existing h in Recreated W asked existing h r h'
  unfolding recreate
  recreate-Recreated =
      let old = removal-calls W name existing h in
      elim (Result-cases (remove_existing W name existing h).0) [
        | inr (m, p) ↦ inl (
          λ done. remove_existing-fails W name existing h m done p,
          (m, ground arith),
          ground arith,
        )
        | inl (_, p) ↦ elim (Result-cases (create W asked removed).0) [
          | inr (m, q) ↦
              let made = create-calls W asked removed in
              inr (
                inl (
                  remove_existing-IsGone W name existing h p,
                  (m, q),
                  (codes "create container " ++ name ++ codes ": " ++ m, ground arith),
                  ground arith,
                ))
          | inl (id, q) ↦
              let made = create-calls W asked removed in
              let begun = start-calls W id (http (create_request asked) ∷ removed) in
              inr (
                inr (
                  remove_existing-IsGone W name existing h p,
                  id,
                  q,
                  ground arith,
                  (λ e. ground arith, λ e. ground arith),
                ))
        ]
      ]

module _ (W : World) (service_id : Text) (rev : ℤ) (spec : Spec) (h : History) where
  apply_invalid :
      (m : Text)
      → validate spec ≡ err m
      → apply_revision W service_id rev spec h ≡ (err (codes "invalid spec: " ++ m), h)
  unfolding apply_revision
  apply_invalid m v = ground arith

  apply_valid :
      validate spec ≡ ok tt
      → apply_revision W service_id rev spec h
        ≡ recreate W
            (container_name service_id)
            (to_container_spec spec service_id)
            (inspect W (container_name service_id) h).0
            (inspect W (container_name service_id) h).1
  unfolding apply_revision
  apply_valid v = ground arith

  -- ApplyRevision refuses a spec that is not complete, with an error and without a call. For a
  -- complete one it inspects the service's container, asks for it to be stopped and removed if it is
  -- there, and then creates and starts the new one, each stage only if the one before it succeeded
  -- (the success of the stop does not count); it succeeds exactly if the start is reached and does.
  pub apply_revision-calls :
      let (r, h') = apply_revision W service_id rev spec h in
      let name = container_name service_id in
      ((¬ IsComplete spec) × ((m : Text) × (r ≡ err m)) × (h' ≡ h))
      ⊎ (IsComplete spec
          × Recreated W
              (to_container_spec spec service_id)
              (inspect W name h).0
              (http (inspect_request name) ∷ h)
              r
              h')
  unfolding to_container_spec
  apply_revision-calls = elim (Result-cases (validate spec)) [
    | inr (m, v) ↦
        rw (apply_invalid m v)
          (inl (λ c. cc ((validate_iff spec).1 c), (codes "invalid spec: " ++ m, refl), refl))
    | inl (_, v) ↦
        let name = container_name service_id in
        let c = to_container_spec spec service_id in
        inr (
          (validate_iff spec).0 v,
          rw (apply_valid v, ← inspect-calls W name h)
              (recreate-Recreated W name c (inspect W name h).0 (inspect W name h).1),
        )
  ]
