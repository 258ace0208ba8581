-- ===== src/Examples/Network.antt =====
-- The firewall, certificates and calls of the control plane, on one host.
use routestack_agent.Base.{
  arith, pos, Text, true, false, List, [], ◌∷◌, none, ◌≡◌, ◌⊎◌, refl, codes, ascii_only, trim_space,
  is_empty, negsuc, is_negative, bytes, split, trim_suffix,
}
use routestack_agent.World.{ok, err}
use routestack_agent.Firewall.{Ruleset, apply_revision}
use routestack_agent.Firewall.Commands.{chain_of, wanted}
use routestack_agent.Firewall.Chain.{Added, apply_revision-chain}
use routestack_agent.Certs.Domain.{
  to_lower, check_domain, check_labels, check_label, check_bytes, normalize_domain,
  normalize_domains, add_domains,
}
use routestack_agent.Certs.Domain.Normal.{IsDomain, normalize_domain-IsDomain}
use routestack_agent.Certs.Domain.Distinct.{IsExtended, normalize_domains-IsExtended}
use routestack_agent.Api.Retry.Waits.{IsBounded, do_with_retry-IsBounded}
use routestack_agent.Api.Retry.{replied, Server, default_retry_config, do_with_retry}
use routestack_agent.Api.Retry.Attempts.{Attempts, do_with_retry-Attempts}
use routestack_agent.Agent.Config.{Config, apply_defaults}
use routestack_agent.Agent.Config.Defaults.{IsDefaulted, apply_defaults-IsDefaulted}
use routestack_agent.Examples.Node.{host, nothing}

abbrev rules : Ruleset
rules = record {
  revision = pos 1;
  rules =
      record { args = codes "-p" ∷ codes "tcp" ∷ codes "-j" ∷ codes "ACCEPT" ∷ [] }
      ∷ record { args = [] }
      ∷ [];
}

apply_revision-chain_example :
    let (r, h) = apply_revision host rules nothing in
    ((is_negative (pos 1) ≡ true) × ((m : Text) × (r ≡ err m)) × (h ≡ nothing))
    ⊎ ((is_negative (pos 1) ≡ false)
        × (((m : Text) × (r ≡ err m) × (chain_of host h ≡ []))
            ⊎ Added host [] (wanted rules.rules) r (chain_of host h)))
apply_revision-chain_example = apply_revision-chain host rules nothing

abbrev site : Text
site = codes "a.io"

site-IsDomain : IsDomain site
unfolding normalize_domain check_domain to_lower trim_suffix trim_space bytes split check_labels
    check_label check_bytes
site-IsDomain = normalize_domain-IsDomain ascii_only (codes " A.io. ") site refl

abbrev asked : List Text
asked = codes "b.io" ∷ codes "A.io" ∷ []

abbrev names : List Text
names = site ∷ codes "b.io" ∷ []

normalize_domains-IsExtended_example : IsExtended ascii_only (site ∷ []) asked names
unfolding normalize_domains add_domains normalize_domain check_domain to_lower trim_suffix
    trim_space bytes split check_labels check_label check_bytes
normalize_domains-IsExtended_example =
    normalize_domains-IsExtended ascii_only site asked names site-IsDomain refl

abbrev plane : Server
plane = record {
  new_request = λ method url. ok tt;
  reply = λ h. elim h [ [] ↦ replied 503 [] none | _ ∷ _ ↦ replied 200 (codes "{}") none ];
  done = λ h d. none;
}

do_with_retry-Attempts_example :
    Attempts
      (codes "POST")
      (codes "/claim")
      (λ s. ok s)
      plane
      (codes "https://c/claim")
      default_retry_config
      []
      (do_with_retry
        (codes "POST")
        (codes "/claim")
        (λ s. ok s)
        plane
        (codes "https://c/claim")
        default_retry_config
        (ok (codes "{}"))
        [])
do_with_retry-Attempts_example =
    do_with_retry-Attempts (codes "POST") (codes "/claim") (λ s. ok s) plane
      (codes "https://c/claim") default_retry_config [] (codes "{}") refl

do_with_retry-IsBounded_example :
    IsBounded
      (codes "POST")
      (codes "/claim")
      (λ s. ok s)
      plane
      (codes "https://c/claim")
      default_retry_config
      []
      (do_with_retry
        (codes "POST")
        (codes "/claim")
        (λ s. ok s)
        plane
        (codes "https://c/claim")
        default_retry_config
        (ok (codes "{}"))
        [])
do_with_retry-IsBounded_example =
    do_with_retry-IsBounded (codes "POST") (codes "/claim") (λ s. ok s) plane
      (codes "https://c/claim") default_retry_config [] (codes "{}") refl (omega arith)

abbrev settings : Config
settings = record {
  agent = record { version = []; node_id = codes "n1" };
  controller = record {
    url = codes "https://c";
    ca_cert_path = [];
    heartbeat_interval_sec = negsuc 0;
    operation_poll_timeout_sec = pos 0;
    connect_timeout_sec = pos 5;
    request_timeout_sec = pos 0;
  };
  paths = record {
    config_dir = [];
    backup_dir = [];
    state_file = codes "/s";
    log_file = [];
    nftables_config = [];
  };
  system = record { ssh_port = pos 0; public_interface = [] };
}

apply_defaults-IsDefaulted_example :
    ((is_empty settings.controller.url ≡ true) × ((m : Text) × (apply_defaults settings ≡ err m)))
    ⊎ ((is_empty settings.controller.url ≡ false)
        × ((new : Config) × (apply_defaults settings ≡ ok new) × IsDefaulted settings new))
apply_defaults-IsDefaulted_example = apply_defaults-IsDefaulted settings
