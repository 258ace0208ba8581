-- ===== src/Agent/Config/Defaults.antt =====
-- What applyDefaults of internal/agent/config.go fills in.
use routestack_agent.Base.{
  ℤ, pos, Text, [], ◌∷◌, ◌≢◌, true, false, ◌≡◌, ◌⊎◌, inl, inr, refl, codes, is_positive, is_empty,
  Bool-cases,
}
use routestack_agent.World.{ok, err}
use routestack_agent.Agent.Config.{Config, positive_or, text_or, with_defaults, apply_defaults}

-- A positive number is kept, and any other one is the default.
abbrev pub IsFilled : ℤ → ℤ → ℤ → Type 0
IsFilled value old new =
    ((is_positive old ≡ true) × (new ≡ old)) ⊎ ((is_positive old ≡ false) × (new ≡ value))

-- A text that is not empty is kept, and the empty text is the default.
abbrev pub IsGiven : Text → Text → Text → Type 0
IsGiven value old new = ((old ≢ []) × (new ≡ old)) ⊎ ((old ≡ []) × (new ≡ value))

pub record IsDefaulted (old new : Config) : Type 0 where
  pub version : IsGiven (codes "0.1.0") old.agent.version new.agent.version
  pub node_id : new.agent.node_id ≡ old.agent.node_id
  pub url : new.controller.url ≡ old.controller.url
  pub ca_cert_path : new.controller.ca_cert_path ≡ old.controller.ca_cert_path
  pub heartbeat :
      IsFilled (pos 30) old.controller.heartbeat_interval_sec new.controller.heartbeat_interval_sec
  pub poll :
      IsFilled
        (pos 30)
        old.controller.operation_poll_timeout_sec
        new.controller.operation_poll_timeout_sec
  pub connect :
      IsFilled (pos 10) old.controller.connect_timeout_sec new.controller.connect_timeout_sec
  pub request :
      IsFilled (pos 60) old.controller.request_timeout_sec new.controller.request_timeout_sec
  pub ssh : IsFilled (pos 22) old.system.ssh_port new.system.ssh_port
  pub public_interface : new.system.public_interface ≡ old.system.public_interface
  pub config_dir :
      IsGiven (codes "/etc/routestack/services") old.paths.config_dir new.paths.config_dir
  pub backup_dir :
      IsGiven (codes "/var/lib/routestack/backups") old.paths.backup_dir new.paths.backup_dir
  pub state_file :
      IsGiven (codes "/var/lib/routestack/state.json") old.paths.state_file new.paths.state_file
  pub log_file :
      IsGiven (codes "/var/log/routestack/agent.log") old.paths.log_file new.paths.log_file
  pub nftables_config :
      IsGiven
        (codes "/etc/routestack/nftables/routestack.nft")
        old.paths.nftables_config
        new.paths.nftables_config

positive_or-IsFilled : (value n : ℤ) → IsFilled value n (positive_or value n)
unfolding positive_or
positive_or-IsFilled value n = elim (Bool-cases (is_positive n)) [
  | inl e ↦ rw e (inl (refl, refl))
  | inr e ↦ rw e (inr (refl, refl))
]

text_or-IsGiven : (value s : Text) → IsGiven value s (text_or value s)
unfolding text_or
text_or-IsGiven value [] = inr (refl, refl)
text_or-IsGiven value (c ∷ s) = inl (cc, refl)

-- applyDefaults refuses exactly the configurations without a controller URL. In any other one, each
-- of the four intervals and the SSH port is kept if it is positive, the version and each of the five
-- paths is kept if it is not empty, and else each of them is the default of its field; the node ID, the
-- URL, the path of the CA certificate and the public interface are kept as they are.
pub apply_defaults-IsDefaulted :
    (c : Config)
    → ((is_empty c.controller.url ≡ true) × ((m : Text) × (apply_defaults c ≡ err m)))
      ⊎ ((is_empty c.controller.url ≡ false)
          × ((new : Config) × (apply_defaults c ≡ ok new) × IsDefaulted c new))
unfolding apply_defaults with_defaults
apply_defaults-IsDefaulted c = elim (Bool-cases (is_empty c.controller.url)) [
  | inl e ↦ inl (e, (codes "controller.url is required", rw (apply_defaults, e) refl))
  | inr e ↦ inr (
    e,
    (
      with_defaults c,
      rw (apply_defaults, e) refl,
      record {
        version = text_or-IsGiven _ c.agent.version;
        node_id = refl;
        url = refl;
        ca_cert_path = refl;
        public_interface = refl;
        heartbeat = positive_or-IsFilled _ c.controller.heartbeat_interval_sec;
        poll = positive_or-IsFilled _ c.controller.operation_poll_timeout_sec;
        connect = positive_or-IsFilled _ c.controller.connect_timeout_sec;
        request = positive_or-IsFilled _ c.controller.request_timeout_sec;
        ssh = positive_or-IsFilled _ c.system.ssh_port;
        config_dir = text_or-IsGiven _ c.paths.config_dir;
        backup_dir = text_or-IsGiven _ c.paths.backup_dir;
        state_file = text_or-IsGiven _ c.paths.state_file;
        log_file = text_or-IsGiven _ c.paths.log_file;
        nftables_config = text_or-IsGiven _ c.paths.nftables_config;
      },
    ),
  )
]
