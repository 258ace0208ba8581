-- ===== src/Enroll/Enrolled.antt =====
-- After an enrolment that exits with 0 the agent can run (cmdEnroll of
-- cmd/routestack-agent/main.go).
use routestack_agent.Base.{
  ℕ, Text, false, not, List, [], ◌∷◌, Option, none, some, ◌≡◌, refl, ap, ◌∙◌, inl, inr, arith,
  text_eq, text_eq_iff, is_empty, ◌||◌, Bool-cases,
}
use routestack_agent.Base.Assoc.{lookup, has}
use routestack_agent.World.{World, Result, Result-cases, ok, err}
use routestack_agent.Files.{Disk, Written, save}
use routestack_agent.Files.Atomic.{save-IsAtomic}
use routestack_agent.Files.Frame.{save-Keeps}
use routestack_agent.State.{AgentState, state_json, load_state, is_enrolled}
use routestack_agent.Base.Assoc.{IsMap}
use routestack_agent.State.Restore.{load_state-save}
use routestack_agent.State.Keys.{load_state-IsMap}
use routestack_agent.Agent.Config.{Config, load_config}
use routestack_agent.Api.Calls.{EnrollRequest, EnrollResponse}
use routestack_agent.Enroll.{
  Outside, latest, key_path, cert_path, recorded, with_enrollment, generate_key_and_csr,
  load_ca_pool, key_pem, save_credentials, enroll_node, ca_cert_path, record_enrollment, enrolled,
  enroll_with, cmd_enroll,
}
use routestack_agent.Enroll.Order.{HasOwnNames, save_credentials-IsSaved, save_credentials-IsFound}

-- The state file and the temporary files are apart from the credentials and from each other.
abbrev pub Apart : Outside → Text → Type 0
Apart O path =
    (text_eq O.key_os.temp path ≡ false)
    × (text_eq O.cert_os.temp path ≡ false)
    × (text_eq O.state_os.temp key_path ≡ false)
    × (text_eq O.state_os.temp cert_path ≡ false)
    × (text_eq O.state_os.temp path ≡ false)
    × (text_eq path key_path ≡ false)
    × (text_eq path cert_path ≡ false)

text_eq_sym : (s t : Text) → text_eq s t ≡ false → text_eq t s ≡ false
text_eq_sym s t h = ground (arith, text_eq_iff s t, text_eq_iff t s)

recorded-zero : (w : Written) → (recorded w).0 ≡ 0 → (w ≡ (ok tt, w.1)) × ((recorded w).1 ≡ w.1)
unfolding recorded
recorded-zero (err e, ds) h = absurd (omega arith)
recorded-zero (ok tt, ds) h = (refl, refl)

-- The state of an enrolment counts as enrolled where its files are, unless its node has no ID.
is_enrolled-with_enrollment :
    (resp : EnrollResponse) (s : AgentState) (d : Disk) (key cert : Text)
    → lookup key_path d ≡ some key
    → lookup cert_path d ≡ some cert
    → is_enrolled (with_enrollment resp s) d ≡ not (is_empty resp.node_id)
unfolding with_enrollment is_enrolled
is_enrolled-with_enrollment resp s d key cert k c = elim (Bool-cases (is_empty resp.node_id)) [
  | inl e ↦ rw (is_enrolled, with_enrollment, e) refl
  | inr e ↦ rw (is_enrolled, with_enrollment, e, c, k) refl
]

one-not-zero : {n : ℕ} → n ≡ 1 → n ≡ 0 → ⊥
one-not-zero h k = omega arith

load_state-same :
    (W : World) (fault : Option Text) (path : Text) (s : AgentState) (d d' : Disk)
    → load_state W fault path d ≡ ok s
    → lookup path d' ≡ lookup path d
    → load_state W fault path d' ≡ ok s
unfolding load_state
load_state-same W fault path s d d' h e = rw (load_state, e) h

module _ (O : Outside) (W : World) (path : Text) (resp : EnrollResponse) (s : AgentState)
    (apart : Apart O path)
    (reads : W.parse (O.print_indented (state_json (with_enrollment resp s)))
      ≡ ok (state_json (with_enrollment resp s)))
    (unique : IsMap [] s.last_known_revisions) where
  -- `run` finds the state of the enrolment, and takes the node as enrolled if it has an ID.
  abbrev pub IsReady : Text → Disk → Type 0
  IsReady key last =
      (load_state W none path last ≡ ok (with_enrollment resp s))
      × (lookup key_path last ≡ some key)
      × (lookup cert_path last ≡ some resp.certificate)
      × (is_enrolled (with_enrollment resp s) last ≡ not (is_empty resp.node_id))

  record_enrollment-IsReady :
      (d : Disk) (key : Text)
      → load_state W O.state_fault path d ≡ ok s
      → lookup key_path d ≡ some key
      → lookup cert_path d ≡ some resp.certificate
      → (record_enrollment O W path resp d).0 ≡ 0
      → (last : Disk) × (ds : List Disk) × ((record_enrollment O W path resp d).1 ≡ last ∷ ds)
        × IsReady key last
  unfolding record_enrollment with_enrollment
  record_enrollment-IsReady d key loaded k c exits =
      let text = O.print_indented (state_json (with_enrollment resp s)) in
      let (saved, same) =
        recorded-zero (save O.state_os path (ok text) d)
          (rw (record_enrollment, loaded) at exits) in
      elim (save-IsAtomic O.state_os path text d apart.4) [
        | inr (e, ds, eq, _) ↦ absurd cc
        | inl (last, ds, eq, _, _) ↦
            let k' = save-Keeps O.state_os key_path path (some key) apart.2 apart.5 text d k in
            let c' =
              save-Keeps O.state_os cert_path path (some resp.certificate) apart.3 apart.6 text d
                c in
            (
              last,
              ds,
              rw (record_enrollment, loaded) (same ∙ ap (λ w. w.1) eq),
              (
                load_state-save W O.state_os path O.print_indented (with_enrollment resp s) d last
                    ds reads unique apart.4 eq,
                (rw eq at k').0,
                (rw eq at c').0,
                is_enrolled-with_enrollment resp s last key resp.certificate (rw eq at k').0
                    (rw eq at c').0,
              ),
            )
      ]

  module _ (key : Text) (own : HasOwnNames O) where
    enrolled-IsReady :
        (d last : Disk) (ds : List Disk)
        → load_state W O.state_fault path d ≡ ok s
        → enrolled O W path d (save_credentials O (key_pem O key) resp d) ≡ (0, last ∷ ds)
        → IsReady (key_pem O key) last
    unfolding enrolled
    enrolled-IsReady d last ds loaded exits =
        let sv = save_credentials-IsSaved O own (key_pem O key) resp (lookup cert_path d) d refl in
        let found =
          save_credentials-IsFound O (key_pem O key) resp path (lookup path d) apart.0 apart.1
            (text_eq_sym path key_path apart.5) (text_eq_sym path cert_path apart.6) d refl in
        elim sv.1 [
          | inr (e, ds', eq, _) ↦ absurd (one-not-zero refl (ap (λ p. p.0) (rw eq at exits)))
          | inl (l1, ds1, eq, k, c) ↦
              let same : lookup path l1 ≡ lookup path d = (rw eq at found).0 in
              let ex = rw eq at exits in
              let (d2, ds2, e2, ready) =
                record_enrollment-IsReady l1 (key_pem O key)
                  (load_state-same W O.state_fault path s d l1 loaded same) k c
                  (ap (λ p. p.0) ex) in
              let all = rw e2 at (ap (λ p. p.1) ex) in
              let newest : d2 ≡ last = ap (latest []) all in rw newest at ready
        ]

    -- From the configuration on.
    enroll_with-IsReady :
        (send : EnrollRequest → Result EnrollResponse) (c : Config) (token csr : Text)
        (d last : Disk) (ds : List Disk)
        → c.paths.state_file ≡ path
        → generate_key_and_csr O [] ≡ ok (key, csr)
        → send (record { enrollment_token = token; csr = csr; node_id = [] }) ≡ ok resp
        → load_state W O.state_fault path d ≡ ok s
        → enroll_with O W send token c d ≡ (0, last ∷ ds)
        → IsReady (key_pem O key) last
    unfolding enroll_with enroll_node enrolled
    enroll_with-IsReady send c token csr d last ds at_path made granted loaded exits =
        elim (Bool-cases (has (ca_cert_path c) d)) [
          | inr absent ↦
              absurd (one-not-zero refl (ap (λ p. p.0) (rw (enroll_with, absent) at exits)))
          | inl present ↦ elim (Result-cases (load_ca_pool O (ca_cert_path c) d)) [
            | inr (e, bad) ↦ absurd (
                one-not-zero refl
                  (ap (λ p. p.0) (rw (enroll_with, present, enroll_node, made, bad) at exits)))
            | inl (_, good) ↦
                enrolled-IsReady d last ds loaded
                  (rw (enroll_with, present, enroll_node, made, good, granted, at_path) at exits)
          ]
        ]

-- If the controller grants the request, the names of the files are apart and encoding/json reads back
-- the state that it prints: after an enrolment that exits with 0, LoadState gives the old state with
-- the ID that the controller chose and the paths of the credentials, these hold the new key and the
-- certificate of the controller's answer, and IsEnrolled is true of it exactly when that ID is not empty.
pub cmd_enroll-IsReady :
    (O : Outside) (W : World) (send : Text → EnrollRequest → Result EnrollResponse)
    (token url config_path key csr : Text) (c : Config) (resp : EnrollResponse) (s : AgentState)
    (d last : Disk) (ds : List Disk)
    → HasOwnNames O
    → Apart O c.paths.state_file
    → load_config O.parse_config O.missing O.config_fault config_path d ≡ ok c
    → generate_key_and_csr O [] ≡ ok (key, csr)
    → send url (record { enrollment_token = token; csr = csr; node_id = [] }) ≡ ok resp
    → load_state W O.state_fault c.paths.state_file d ≡ ok s
    → W.parse (O.print_indented (state_json (with_enrollment resp s)))
      ≡ ok (state_json (with_enrollment resp s))
    → cmd_enroll O W send token url config_path d ≡ (0, last ∷ ds)
    → (load_state W none c.paths.state_file last ≡ ok (with_enrollment resp s))
      × (lookup key_path last ≡ some (key_pem O key))
      × (lookup cert_path last ≡ some resp.certificate)
      × (is_enrolled (with_enrollment resp s) last ≡ not (is_empty resp.node_id))
unfolding cmd_enroll
cmd_enroll-IsReady O W send token url config_path key csr c resp s d last ds own apart configured
      made granted loaded reads exits =
    elim (Bool-cases (is_empty token || is_empty url)) [
      | inl e ↦ absurd (one-not-zero refl (ap (λ p. p.0) (rw (cmd_enroll, e) at exits)))
      | inr e ↦
          enroll_with-IsReady O W c.paths.state_file resp s apart reads
            (load_state-IsMap W O.state_fault c.paths.state_file d s loaded) key own (send url) c
            token csr d last ds refl made granted loaded (rw (cmd_enroll, e, configured) at exits)
    ]
