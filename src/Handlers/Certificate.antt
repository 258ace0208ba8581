-- ===== src/Handlers/Certificate.antt =====
-- The payload of MANAGE_CERTIFICATE: certs.Request of internal/certs/manager.go.
use routestack_agent.Base.{false, [], codes, if◌then◌else◌}
use routestack_agent.Json.{Setter, names_match, set_text, set_bool, set_list, text_element}
use routestack_agent.Certs.Command.{Request}

abbrev pub no_request : Request
no_request = record {
  domain = [];
  domains = [];
  action = [];
  method = [];
  email = [];
  webroot_path = [];
  staging = false;
  force_renewal = false;
  revoke_reason = [];
}

unfoldable pub request_setter : Setter Request
request_setter key v r =
    let old = r.value in
    if names_match key (codes "domain")
    then set_text v (λ s. record old { domain = s }) r
    else if names_match key (codes "domains")
    then set_list text_element v (λ ts. record old { domains = ts }) r
    else if names_match key (codes "action")
    then set_text v (λ s. record old { action = s }) r
    else if names_match key (codes "method")
    then set_text v (λ s. record old { method = s }) r
    else if names_match key (codes "email")
    then set_text v (λ s. record old { email = s }) r
    else if names_match key (codes "webroot_path")
    then set_text v (λ s. record old { webroot_path = s }) r
    else if names_match key (codes "staging")
    then set_bool v (λ b. record old { staging = b }) r
    else if names_match key (codes "force_renewal")
    then set_bool v (λ b. record old { force_renewal = b }) r
    else if names_match key (codes "revoke_reason")
    then set_text v (λ s. record old { revoke_reason = s }) r
    else r
