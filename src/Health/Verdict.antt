-- ===== src/Health/Verdict.antt =====
-- What a health report says (Manager.Check of internal/health/manager.go).
use routestack_agent.Base.{
  ℕ, ℤ, pos, negsuc, zero, suc, ◌*◌, ◌%◌, Option, none, some, contains, text_eq, Text, Bool, true,
  false, List, [], ◌∷◌, ◌++◌, ◌≡◌, refl, ◌∙◌, ap, arith, ◌&&◌, append_assoc, append-nil, sym, ◌⊎◌,
  inl, inr, if◌then◌else◌, codes,
}
use routestack_agent.World.{World, History, dial, Result-cases, ok, err}
use routestack_agent.Docker.Types.{ContainerState, Health}
use routestack_agent.Docker.Client.{inspect}
use routestack_agent.Service.Manager.{health_text}
use routestack_agent.Service.Spec.{container_name}
use routestack_agent.Health.{
  first_report, PortHit, Report, CheckOptions, health_passes, probe_timeout, probe_port, probe_all,
  check,
}

abbrev pub all_open : List PortHit → Bool
all_open [] = true
all_open (hit ∷ hits) = hit.open_port && all_open hits

abbrev with_hits : Report → List PortHit → Report
with_hits r hits = record r {
  port_checks = r.port_checks ++ hits;
  healthy = r.healthy && all_open hits;
}

with_hits-nil : (r : Report) → with_hits r [] ≡ r
with_hits-nil r = ground (arith, append-nil r.port_checks)

with_hits-cons :
    (r : Report) (hit : PortHit) (hits : List PortHit)
    → with_hits
        (record r {
          port_checks = r.port_checks ++ hit ∷ [];
          healthy = if hit.open_port then r.healthy else false;
        })
        hits
      ≡ with_hits r (hit ∷ hits)
with_hits-cons r hit hits = ground (arith, append_assoc r.port_checks (hit ∷ []) hits)

-- The address of a port, which may name its host.
abbrev pub address : Text → Text
address port = if contains port (codes ":") then port else codes "127.0.0.1:" ++ port

-- What the ports answer when they are dialled one after another.
abbrev pub dialled : World → List Text → ℕ → History → List PortHit
dialled W [] t h = []
dialled W (port ∷ ports) t h =
    (record { host_port = port; open_port = W.accepts h (address port) t })
    ∷ dialled W ports t (dial (address port) t ∷ h)

abbrev pub dials : List Text → ℕ → History → History
dials [] t h = h
dials (port ∷ ports) t h = dials ports t (dial (address port) t ∷ h)

-- Nanoseconds: the time of the options, if it is positive, or two seconds.
abbrev pub limit : ℤ → ℕ
limit (pos zero) = 2000000000
limit (negsuc n) = 2000000000
limit (pos (suc n)) = 1000000 * suc n % 18446744073709551616

abbrev pub own_status : Option Health → Text
own_status none = []
own_status (some own) = own.status

abbrev pub own_passes : Option Health → Bool
own_passes none = true
own_passes (some own) = text_eq own.status (codes "healthy")

-- The report on a container in this state, all its fields, and the calls that a check makes after
-- the container is described.
pub record IsReported (W : World) (service_id : Text) (opts : CheckOptions) (state : ContainerState)
    (h : History) (report : Report) (h' : History) : Type 0 where
  pub service : report.service_id ≡ service_id
  pub container : report.container_name ≡ container_name service_id
  pub id : report.container_id ≡ state.id
  pub running : report.running ≡ state.state.running
  pub status : report.status ≡ state.state.status
  pub health : report.health ≡ own_status state.state.health
  pub exit : report.exit_code ≡ state.state.exit_code
  pub ports : report.port_checks ≡ dialled W opts.probe_ports (limit opts.timeout_ms) h
  pub healthy :
      report.healthy
      ≡ (state.state.running && own_passes state.state.health) && all_open report.port_checks
  pub calls : h' ≡ dials opts.probe_ports (limit opts.timeout_ms) h

limit-probe_timeout : (t : ℤ) → probe_timeout t ≡ limit t
limit-probe_timeout (pos zero) = refl
limit-probe_timeout (negsuc n) = refl
limit-probe_timeout (pos (suc n)) = ground arith

own_passes-health_passes : (o : Option Health) → health_passes o ≡ own_passes o
own_passes-health_passes none = refl
own_passes-health_passes (some own) = refl

own_status-health_text : (o : Option Health) → health_text o ≡ own_status o
own_status-health_text none = refl
own_status-health_text (some own) = refl

module _ (W : World) where
  -- Every port is dialled once, in order, and the report gets the answers.
  probe_all-dialled :
      (ports : List Text) (t : ℕ) (r : Report) (h : History)
      → probe_all W ports t r h ≡ (ok (with_hits r (dialled W ports t h)), dials ports t h)
  unfolding probe_all probe_port
  probe_all-dialled [] t r h = ap (λ x. (ok x, h)) (sym (with_hits-nil r))
  probe_all-dialled (port ∷ ports) t r h =
      let b = W.accepts h (address port) t in
      let hit : PortHit = record { host_port = port; open_port = b } in
      let next : Report = record r {
        port_checks = r.port_checks ++ hit ∷ [];
        healthy = if b then r.healthy else false;
      } in
      let after = dial (address port) t ∷ h in
      probe_all-dialled ports t next after
      ∙ ap (λ x. (ok x, dials ports t after)) (with_hits-cons r hit (dialled W ports t after))

  with_hits-IsReported :
      (service_id : Text) (opts : CheckOptions) (state : ContainerState) (h : History)
      → let t = probe_timeout opts.timeout_ms in
        IsReported W service_id opts state h
          (with_hits (first_report service_id state) (dialled W opts.probe_ports t h))
          (dials opts.probe_ports t h)
  with_hits-IsReported service_id opts state h = record {
    service = refl;
    container = refl;
    id = refl;
    running = refl;
    status = refl;
    health = own_status-health_text state.state.health;
    exit = refl;
    ports = ap (λ t. dialled W opts.probe_ports t h) (limit-probe_timeout opts.timeout_ms);
    healthy =
        ap
          (λ b.
            (state.state.running && b)
            && all_open (dialled W opts.probe_ports (probe_timeout opts.timeout_ms) h))
          (own_passes-health_passes state.state.health);
    calls = ap (λ t. dials opts.probe_ports t h) (limit-probe_timeout opts.timeout_ms);
  }

  -- A check fails exactly if the container cannot be inspected, and then it dials no port. Otherwise
  -- it dials every port to probe once, in order, at its own host if it names one and at 127.0.0.1 if
  -- not, with the time-out of the options or two seconds, and makes no other call. The report has the
  -- service, the name, the ID and the state of the container, and for each port whether the dial was
  -- accepted; it says "healthy" exactly if the container runs, its own health check, if it has one,
  -- says "healthy", and every dial was accepted.
  pub check-verdict :
      (service_id : Text) (opts : CheckOptions) (h : History)
      → let (found, h') = inspect W (container_name service_id) h in
        let (result, last) = check W service_id opts h in
        ((m : Text) × (found ≡ err m)
          × (result ≡ err (codes "inspect " ++ container_name service_id ++ codes ": " ++ m))
          × (last ≡ h'))
        ⊎ ((state : ContainerState) × (report : Report) × (found ≡ ok state)
            × (result ≡ ok report)
            × IsReported W service_id opts state h' report last)
  unfolding check
  check-verdict service_id opts h =
      elim (Result-cases (inspect W (container_name service_id) h).0) [
        | inr (m, e) ↦ inl (m, e, ground arith, ground arith)
        | inl (state, e) ↦
            let h' = (inspect W (container_name service_id) h).1 in
            let t = probe_timeout opts.timeout_ms in
            let first = first_report service_id state in
            let all : check W service_id opts h ≡ probe_all W opts.probe_ports t first h' =
              ground arith in
            let same = all ∙ probe_all-dialled opts.probe_ports t first h' in
            inr (
              state,
              with_hits first (dialled W opts.probe_ports t h'),
              e,
              ap (λ r. r.0) same,
              rw (ap (λ r. r.1) same) (with_hits-IsReported service_id opts state h'),
            )
      ]
