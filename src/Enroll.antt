-- ===== src/Enroll.antt =====
-- Enrolment: Enroll of internal/api/enroll.go and cmdEnroll of cmd/routestack-agent/main.go, on a
-- disk. The cryptography, the YAML package and the operating system are parameters.
pub mod Order
pub mod Enrolled
use routestack_agent.Base.{
  ℕ, Text, Bool, true, List, [], ◌∷◌, ◌++◌, Option, none, some, codes, is_empty, not, ◌||◌,
  if◌then◌else◌,
}
use routestack_agent.Base.Assoc.{lookup, has}
use routestack_agent.Json.{Json}
use routestack_agent.Paths.{agent_config_dir, default_cert_path, default_key_path}
use routestack_agent.World.{in_context, World, Result, ok, err}
use routestack_agent.Files.{Disk, Os, Written, save, write_file_atomic}
use routestack_agent.State.{AgentState, load_state, state_json}
use routestack_agent.Agent.Config.{Config, load_config}
use routestack_agent.Api.Calls.{EnrollRequest, EnrollResponse}

-- What is asked of code outside the repository.
pub record Outside : Type 0 where
  -- ed25519.GenerateKey
  pub generate_key : Result Text
  -- x509.CreateCertificateRequest, of a common name, the DNS names and a key
  pub create_request : Text → List Text → Text → Result Text
  -- x509.MarshalPKCS8PrivateKey, which does not fail on an Ed25519 key
  pub marshal_key : Text → Text
  -- pem.EncodeToMemory, of a type and the bytes
  pub pem : Text → Text → Text
  -- whether AppendCertsFromPEM finds a certificate
  pub has_certificate : Text → Bool
  -- the YAML package
  pub parse_config : Text → Result Config
  -- json.MarshalIndent
  pub print_indented : Json → Text
  -- the message for a file that is missing, and the errors of reading a file that exists
  pub missing : Text
  pub config_fault : Option Text
  pub ca_fault : Option Text
  pub state_fault : Option Text
  -- the three atomic writes
  pub key_os : Os
  pub cert_os : Os
  pub state_os : Os

-- filesystem.DefaultKeyPath and filesystem.DefaultCertPath, which Enroll spells out.
abbrev pub key_path : Text
key_path = default_key_path

abbrev pub cert_path : Text
cert_path = default_cert_path

-- What follows on the disk that a write leaves behind.
abbrev pub latest : Disk → List Disk → Disk
latest d [] = d
latest d (d' ∷ _) = d'

-- The state after an enrolment.
unfoldable pub with_enrollment : EnrollResponse → AgentState → AgentState
with_enrollment resp s = record s {
  node_id = resp.node_id;
  cert_path = cert_path;
  key_path = key_path;
}

-- The CA certificate of a configuration.
unfoldable pub ca_cert_path : Config → Text
ca_cert_path c =
    if is_empty c.controller.ca_cert_path
    then agent_config_dir ++ codes "/ca.pem"
    else c.controller.ca_cert_path

-- What follows Save.
unfoldable pub recorded : Written → ℕ × List Disk
recorded (err e, ds) = (1, ds)
recorded (ok _, ds) = (0, ds)

module _ (O : Outside) where
  -- GenerateKeyAndCSR
  unfoldable pub generate_key_and_csr : Text → Result (Text × Text)
  generate_key_and_csr node_id =
      let name = if is_empty node_id then codes "unknown" else node_id in
      elim O.generate_key [
        | err e ↦ err (codes "generate ed25519 key: " ++ e)
        | ok key ↦ elim (O.create_request (codes "routestack-node-" ++ name) (name ∷ []) key) [
          | err e ↦ err (codes "create CSR: " ++ e)
          | ok der ↦ ok (key, O.pem (codes "CERTIFICATE REQUEST") der)
        ]
      ]

  -- loadCAPool
  unfoldable pub load_ca_pool : Text → Disk → Result (Unit {0})
  load_ca_pool path d = elim (lookup path d) [
    | none ↦ err O.missing
    | some text ↦ elim O.ca_fault [
      | some e ↦ err e
      | none ↦
          if O.has_certificate text
          then ok tt
          else err (codes "no valid CA certificates found in " ++ path)
    ]
  ]

  -- NewClientWithCA: the client itself has no state.
  abbrev pub new_client_with_ca : Text → Disk → Result (Unit {0})
  new_client_with_ca ca d = in_context (codes "load CA cert: ") (load_ca_pool ca d)

  -- keyPEM of Enroll
  unfoldable pub key_pem : Text → Text
  key_pem key = O.pem (codes "PRIVATE KEY") (O.marshal_key key)

  -- What follows the write of the certificate, given the disks before it.
  unfoldable pub certificate_saved :
      EnrollResponse → List Disk → Written → Result EnrollResponse × List Disk
  certificate_saved resp before (err e, ds) = (err (codes "save cert: " ++ e), ds ++ before)
  certificate_saved resp before (ok _, ds) = (ok resp, ds ++ before)

  -- What follows the write of the key, given the disk before it.
  unfoldable pub key_saved : EnrollResponse → Disk → Written → Result EnrollResponse × List Disk
  unfolding certificate_saved
  key_saved resp d (err e, ds) = (err (codes "save key: " ++ e), ds)
  key_saved resp d (ok _, ds) =
      certificate_saved resp ds
        (write_file_atomic O.cert_os cert_path resp.certificate (latest d ds))

  -- The end of Enroll: the key, and then the certificate. The result comes with all the disks on the
  -- way, the last one first.
  unfoldable pub save_credentials : Text → EnrollResponse → Disk → Result EnrollResponse × List Disk
  unfolding key_saved
  save_credentials key resp d = key_saved resp d (write_file_atomic O.key_os key_path key d)

  -- Enroll, given what the client's Enroll answers to a request to the controller.
  unfoldable pub enroll_node :
      (EnrollRequest → Result EnrollResponse)
      → Text
      → Text
      → Disk
      → Result EnrollResponse × List Disk
  unfolding generate_key_and_csr load_ca_pool key_pem save_credentials
  enroll_node send token ca d = elim (generate_key_and_csr []) [
    | err e ↦ (err e, d ∷ [])
    | ok (key, csr) ↦ elim (new_client_with_ca ca d) [
      | err e ↦ (err (codes "create enrollment client: " ++ e), d ∷ [])
      | ok _ ↦ elim (send (record { enrollment_token = token; csr = csr; node_id = [] })) [
        | err e ↦ (err (codes "enroll request: " ++ e), d ∷ [])
        | ok resp ↦ save_credentials (key_pem key) resp d
      ]
    ]
  ]

  module _ (W : World) where
    -- The end of cmdEnroll: the exit status, and the disks.
    unfoldable pub record_enrollment : Text → EnrollResponse → Disk → ℕ × List Disk
    unfolding with_enrollment recorded
    record_enrollment path resp d = elim (load_state W O.state_fault path d) [
      | err e ↦ (1, d ∷ [])
      | ok s ↦
          recorded
            (save O.state_os path (ok (O.print_indented (state_json (with_enrollment resp s)))) d)
    ]

    -- What follows Enroll, given the disk before it.
    unfoldable pub enrolled : Text → Disk → Result EnrollResponse × List Disk → ℕ × List Disk
    unfolding record_enrollment
    enrolled path d (err e, ds) = (1, ds)
    enrolled path d (ok resp, ds) =
        let (code, ds') = record_enrollment path resp (latest d ds) in (code, ds' ++ ds)

    -- What follows the configuration.
    unfoldable pub enroll_with :
        (EnrollRequest → Result EnrollResponse) → Text → Config → Disk → ℕ × List Disk
    unfolding enroll_node ca_cert_path enrolled
    enroll_with send token c d =
        if not (has (ca_cert_path c) d)
        then (1, d ∷ [])
        else enrolled c.paths.state_file d (enroll_node send token (ca_cert_path c) d)

    -- cmdEnroll, from the flags on. `send` is the client's Enroll, for a controller URL.
    unfoldable pub cmd_enroll :
        (Text → EnrollRequest → Result EnrollResponse) → Text → Text → Text → Disk → ℕ × List Disk
    unfolding enroll_with
    cmd_enroll send token url config_path d =
        if is_empty token || is_empty url
        then (1, d ∷ [])
        else elim (load_config O.parse_config O.missing O.config_fault config_path d) [
          | err e ↦ (1, d ∷ [])
          | ok c ↦ enroll_with (send url) token c d
        ]
