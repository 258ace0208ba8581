-- ===== src/Agent/Config.antt =====
-- internal/agent/config.go: the configuration and its defaults. The file is read by a YAML package.
pub mod Defaults
use routestack_agent.Base.Assoc.{lookup}
use routestack_agent.Files.{Disk}
use routestack_agent.Base.{
  ℤ, pos, Text, Bool, Option, none, some, ◌++◌, is_positive, codes, is_empty, if◌then◌else◌,
}
use routestack_agent.Paths
use routestack_agent.World.{Result, ok, err}

pub record AgentConfig : Type 0 where
  pub version : Text
  pub node_id : Text

pub record ControllerConfig : Type 0 where
  pub url : Text
  pub ca_cert_path : Text
  pub heartbeat_interval_sec : ℤ
  pub operation_poll_timeout_sec : ℤ
  pub connect_timeout_sec : ℤ
  pub request_timeout_sec : ℤ

pub record PathsConfig : Type 0 where
  pub config_dir : Text
  pub backup_dir : Text
  pub state_file : Text
  pub log_file : Text
  pub nftables_config : Text

pub record SystemConfig : Type 0 where
  pub ssh_port : ℤ
  pub public_interface : Text

pub record Config : Type 0 where
  pub agent : AgentConfig
  pub controller : ControllerConfig
  pub paths : PathsConfig
  pub system : SystemConfig

-- if n <= 0 { n = value }
unfoldable pub positive_or : ℤ → ℤ → ℤ
positive_or value n = if is_positive n then n else value

-- if s == "" { s = value }
unfoldable pub text_or : Text → Text → Text
text_or value s = if is_empty s then value else s

-- c.Controller after the defaults
unfoldable pub default_controller : ControllerConfig → ControllerConfig
default_controller c = record c {
  heartbeat_interval_sec = positive_or (pos 30) c.heartbeat_interval_sec;
  operation_poll_timeout_sec = positive_or (pos 30) c.operation_poll_timeout_sec;
  connect_timeout_sec = positive_or (pos 10) c.connect_timeout_sec;
  request_timeout_sec = positive_or (pos 60) c.request_timeout_sec;
}

-- c.Paths after the defaults, which are the constants of internal/filesystem/paths.go.
unfoldable pub default_paths : PathsConfig → PathsConfig
default_paths p = record {
  config_dir = text_or Paths.services_dir p.config_dir;
  backup_dir = text_or Paths.backup_dir p.backup_dir;
  state_file = text_or Paths.state_file p.state_file;
  log_file = text_or (Paths.log_dir ++ codes "/agent.log") p.log_file;
  nftables_config = text_or (Paths.nftables_dir ++ codes "/routestack.nft") p.nftables_config;
}

-- The configuration after the defaults.
unfoldable pub with_defaults : Config → Config
unfolding default_controller default_paths
with_defaults c = record {
  agent = record c.agent { version = text_or (codes "0.1.0") c.agent.version };
  controller = default_controller c.controller;
  paths = default_paths c.paths;
  system = record c.system { ssh_port = positive_or (pos 22) c.system.ssh_port };
}

-- applyDefaults
unfoldable pub apply_defaults : Config → Result Config
apply_defaults c =
    if is_empty c.controller.url
    then err (codes "controller.url is required")
    else ok (with_defaults c)

-- LoadConfig, given what the YAML package makes of a text, where a read may fail on a file that
-- exists; the message for a missing file is the operating system's.
unfoldable pub load_config :
    (Text → Result Config) → Text → Option Text → Text → Disk → Result Config
unfolding apply_defaults
load_config parse missing fault path d = elim (lookup path d) [
  | none ↦ err (codes "read config " ++ path ++ codes ": " ++ missing)
  | some text ↦ elim fault [
    | some e ↦ err (codes "read config " ++ path ++ codes ": " ++ e)
    | none ↦ elim (parse text) [
      | err e ↦ err (codes "parse config " ++ path ++ codes ": " ++ e)
      | ok c ↦ elim (apply_defaults c) [
        | err e ↦ err (codes "validate config: " ++ e)
        | ok c' ↦ ok c'
      ]
    ]
  ]
]
