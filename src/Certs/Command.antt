-- ===== src/Certs/Command.antt =====
-- internal/certs/manager.go: the certbot command for a request, and running it.
use routestack_agent.Base.{
  Text, Unicode, Bool, true, false, List, [], ◌∷◌, ◌++◌, Option, none, some, codes, is_empty,
  is_blank, trim_space, has_prefix, join_path, not, ◌||◌, quote, text_eq, if◌then◌else◌,
}
use routestack_agent.World.{World, M, Result, ok, err, ◌>>=◌, lift, run_command}
use routestack_agent.Certs.Domain.{normalize_domain, normalize_domains}

pub record Request : Type 0 where
  pub domain : Text
  pub domains : List Text
  pub action : Text
  pub method : Text
  pub email : Text
  pub webroot_path : Text
  pub staging : Bool
  pub force_renewal : Bool
  pub revoke_reason : Text

pub record Report : Type 0 where
  pub action : Text
  pub domain : Text
  pub domains : List Text
  pub method : Text
  pub staging : Bool
  pub certificate_dir : Text
  pub fullchain_path : Text
  pub private_key_path : Text
  pub output : Text

-- letsencryptLiveDir
abbrev pub live_dir : Text
live_dir = codes "/etc/letsencrypt/live"

-- filepath.IsAbs
abbrev pub is_abs : Text → Bool
is_abs path = has_prefix path (codes "/")

-- if cond { args = append(args, word) }
abbrev pub flag : Bool → Text → List Text
flag true word = word ∷ []
flag false word = []

-- for _, d := range domains { args = append(args, "-d", d) }
abbrev pub domain_args : List Text → List Text
domain_args [] = []
domain_args (d ∷ ds) = codes "-d" ∷ d ∷ domain_args ds

-- validRevokeReason
unfoldable pub valid_revoke_reason : Text → Bool
valid_revoke_reason reason =
    text_eq reason (codes "keycompromise")
    || text_eq reason (codes "affiliationchanged")
    || text_eq reason (codes "superseded")
    || text_eq reason (codes "cessationofoperation")

module _ (U : Unicode) where
  -- The switch of challengeArgs, on the method after the default.
  unfoldable pub method_args : Text → Text → Result (List Text × Text)
  method_args method webroot_path =
      if text_eq method (codes "standalone")
      then if not (is_empty webroot_path)
        then err (codes "webroot_path requires method " ++ quote U (codes "webroot"))
        else ok (codes "--standalone" ∷ [], method)
      else if text_eq method (codes "webroot")
      then if is_empty webroot_path
        then err (codes "webroot_path is required for webroot challenge")
        else if is_abs webroot_path
        then ok (codes "--webroot" ∷ codes "--webroot-path" ∷ webroot_path ∷ [], method)
        else err (codes "webroot_path must be absolute")
      else err (codes "unsupported certificate method " ++ quote U method)

  -- challengeArgs
  unfoldable pub challenge_args : Text → Text → Result (List Text × Text)
  challenge_args method webroot_path =
      method_args (if is_empty method then codes "standalone" else method) webroot_path

  -- issueArgs
  unfoldable pub issue_args : Request → Text → List Text → Result (List Text × Text)
  issue_args req domain domains =
      if is_blank req.email
      then err (codes "email is required for certificate issuance")
      else elim (challenge_args req.method req.webroot_path) [
        | err e ↦ err e
        | ok (words, method) ↦ ok (
          codes "certonly"
                ∷ codes "--non-interactive"
                ∷ codes "--agree-tos"
                ∷ codes "--cert-name"
                ∷ domain
                ∷ codes "--email"
                ∷ trim_space req.email
                ∷ words
              ++ (flag req.staging (codes "--test-cert")
                  ++ (flag req.force_renewal (codes "--force-renewal") ++ domain_args domains)),
          method,
        )
      ]

-- renewArgs
unfoldable pub renew_args : Request → Text → Result (List Text)
renew_args req domain =
    let switches =
      flag req.staging (codes "--test-cert") ++ flag req.force_renewal (codes "--force-renewal") in
    let args = codes "renew" ∷ codes "--non-interactive" ∷ codes "--cert-name" ∷ domain ∷ [] in
    if is_empty req.webroot_path
    then ok (args ++ switches)
    else if is_abs req.webroot_path
    then ok (args ++ codes "--webroot-path" ∷ req.webroot_path ∷ switches)
    else err (codes "webroot_path must be absolute")

-- revokeArgs
unfoldable pub revoke_args : Unicode → Request → Text → Result (List Text)
revoke_args U req domain =
    let args =
      codes "revoke"
      ∷ codes "--non-interactive"
      ∷ codes "--cert-name"
      ∷ domain
      ∷ codes "--delete-after-revoke"
      ∷ [] in
    if is_empty req.revoke_reason
    then ok args
    else if valid_revoke_reason req.revoke_reason
    then ok (args ++ codes "--reason" ∷ req.revoke_reason ∷ [])
    else err (codes "unsupported revoke_reason " ++ quote U req.revoke_reason)

-- The report that buildCertbotCommand starts from.
unfoldable pub first_report : Request → Text → List Text → Report
first_report req domain domains = record {
  action = req.action;
  domain = domain;
  domains = domains;
  method = [];
  staging = req.staging;
  certificate_dir = join_path (live_dir ∷ domain ∷ []);
  fullchain_path = join_path (live_dir ∷ domain ∷ codes "fullchain.pem" ∷ []);
  private_key_path = join_path (live_dir ∷ domain ∷ codes "privkey.pem" ∷ []);
  output = [];
}

abbrev with_report : Report → Result (List Text) → Result (List Text × Report)
with_report report (err e) = err e
with_report report (ok args) = ok (args, report)

abbrev with_method : Report → Result (List Text × Text) → Result (List Text × Report)
with_method report (err e) = err e
with_method report (ok (args, method)) = ok (args, record report { method = method })

module _ (U : Unicode) where
  -- The switch on the action.
  unfoldable pub action_command : Request → Text → List Text → Result (List Text × Report)
  action_command req domain domains =
      let report = first_report req domain domains in
      if text_eq req.action (codes "issue")
      then with_method report (issue_args U req domain domains)
      else if text_eq req.action (codes "renew")
      then with_report report (renew_args req domain)
      else if text_eq req.action (codes "revoke")
      then with_report report (revoke_args U req domain)
      else err (codes "unsupported certificate action " ++ quote U req.action)

  -- buildCertbotCommand
  unfoldable pub build_certbot_command : Request → Result (List Text × Report)
  build_certbot_command req = elim (normalize_domain U req.domain) [
    | err e ↦ err (codes "domain: " ++ e)
    | ok domain ↦ elim (normalize_domains U domain req.domains) [
      | err e ↦ err e
      | ok domains ↦ action_command req domain domains
    ]
  ]

-- The error of a certbot that failed with `e` and printed `out`.
unfoldable pub failure : Text → Text → Text → Text
failure action e out =
    if is_empty out
    then codes "certbot " ++ action ++ codes " failed: " ++ e
    else codes "certbot " ++ action ++ codes " failed: " ++ e ++ codes ": " ++ out

abbrev run_error : Text → Option Text → Text → Option Text
run_error action none out = none
run_error action (some e) out = some (failure action e out)

module _ (W : World) (certbot_path : Text) where
  -- Manage: a report comes with the error of a certbot that ran and failed.
  unfoldable pub manage : Request → M (Report × Option Text)
  manage req = do
    (args, report) ← lift (build_certbot_command W.unicode req)
    res ← run_command W certbot_path args
    let out = trim_space res.output
    λ h. (ok (record report { output = out }, run_error req.action res.failure out), h)
