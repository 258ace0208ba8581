-- ===== src/Paths.antt =====
-- internal/filesystem/paths.go: where the agent keeps its files.
use routestack_agent.Base.{Text, List, [], ◌∷◌, ◌++◌, codes}

abbrev pub config_dir : Text
config_dir = codes "/etc/routestack"

abbrev pub services_dir : Text
services_dir = codes "/etc/routestack/services"

abbrev pub nftables_dir : Text
nftables_dir = codes "/etc/routestack/nftables"

abbrev pub agent_config_dir : Text
agent_config_dir = codes "/etc/routestack/agent"

abbrev pub backup_dir : Text
backup_dir = codes "/var/lib/routestack/backups"

abbrev pub state_file : Text
state_file = codes "/var/lib/routestack/state.json"

abbrev pub components_dir : Text
components_dir = codes "/var/lib/routestack/components"

abbrev pub certs_dir : Text
certs_dir = codes "/etc/letsencrypt"

abbrev pub systemd_dir : Text
systemd_dir = codes "/etc/systemd/system"

abbrev pub log_dir : Text
log_dir = codes "/var/log/routestack"

abbrev pub run_dir : Text
run_dir = codes "/run/routestack"

abbrev pub default_cert_path : Text
default_cert_path = config_dir ++ codes "/agent/cert.pem"

abbrev pub default_key_path : Text
default_key_path = config_dir ++ codes "/agent/key.pem"

-- AllowedWritePrefixes. Nothing reads it.
abbrev allowed_write_prefixes : List Text
allowed_write_prefixes =
    services_dir ∷ nftables_dir ∷ backup_dir ∷ state_file ∷ components_dir ∷ certs_dir ∷ systemd_dir
    ∷ log_dir ∷ run_dir ∷ []
