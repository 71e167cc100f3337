-- ===== src/Casdoor/Identity.antt =====
-- casdoor/adapter.go: the adapter as a health check, an authenticator, an authorizer and an audit
-- recorder.
use aisphere_kit.Base.{
  Text, Any, str, codes, Bool, true, false, ◌&&◌, ◌||◌, not, List, [], ◌∷◌, ◌++◌, Option, none,
  some, Io, Result, ok, err, pure, fail, lift, ◌>>=◌, ◌>>◌, and_then, Error, plain, sentinel,
  Sentinel, is_empty, if◌then◌else◌, first_non_empty,
}
use aisphere_kit.Context.{Context}
use aisphere_kit.Principal.Defs.{Principal, zero_principal, subject_user, subject}
use aisphere_kit.Authz
use aisphere_kit.Audit
use aisphere_kit.Casdoor.Client.{Client, Claims, AuditRecord, Selectors}
use aisphere_kit.Casdoor.Settings.{Config, enforce_selectors}
use aisphere_kit.Casdoor.Calls.{Adapter, call_with_context, remote}
pub mod Decisions

-- The test that no selector is active.
abbrev pub no_selector : Selectors → Bool
no_selector s =
    is_empty s.permission_id
    && is_empty s.model_id
    && is_empty s.resource_id
    && is_empty s.enforcer_id
    && is_empty s.owner

-- `if s == "" { s = t }`
abbrev or_else : Text → Text → Text
or_else s t = first_non_empty (s ∷ t ∷ [])

-- The principal that Authenticate makes of the claims.
unfoldable pub principal_of : Config → Text → Claims → Principal
principal_of cfg token claims = record zero_principal {
  subject_type = subject_user;
  subject_id = or_else claims.name claims.subject;
  name = claims.name;
  display_name = claims.display_name;
  email = claims.email;
  avatar = claims.avatar;
  org_id = or_else claims.owner cfg.organization;
  token = token;
  claims =
      (codes "issuer", str claims.issuer)
      ∷ (codes "subject", str claims.subject)
      ∷ (codes "audience", str claims.audience)
      ∷ [];
}

-- The request that Authorize sends to the enforcer: the domain stands between the subject and the
-- resource.
unfoldable pub casbin_req : Text → Text → Text → Text → List Any → List Any
casbin_req subject domain object action extra =
    if is_empty domain
    then str subject ∷ str object ∷ str action ∷ extra
    else str subject ∷ str domain ∷ str object ∷ str action ∷ extra

-- What Record takes from the standard library: the name it makes up, the time, and the JSON text of
-- an event, where `none` is a failure.
pub record Platform (W : Type 0) : Type 0 where
  pub random_name : Text → W → Text × W
  pub format_now : W → Text × W
  pub marshal : Audit.Event → Option Text

abbrev or_braces : Option Text → Text
or_braces none = codes "{}"
or_braces (some s) = s

abbrev actor_id : Option Principal → Text
actor_id none = codes "anonymous"
actor_id (some p) = p.subject_id

abbrev actor_org : Text → Option Principal → Text
actor_org org none = org
actor_org org (some p) = or_else p.org_id org

module _ {W : Type 0} (a : Adapter W) where
  unfoldable pub ping : Option (Context W) → Io W (Unit {0})
  ping ctx = call_with_context ctx (a.client.get_application a.cfg.application)

  -- `ctx.Done()` on a nil context panics, after the token is parsed.
  abbrev unless_done : Option (Context W) → Principal → W → Result Principal × W
  unless_done none p w =
      (err (plain (codes "invalid memory address or nil pointer dereference")), w)
  unless_done (some ctx) p w =
      let (done, v) = ctx.poll w in elim done [ none ↦ (ok p, v) | some e ↦ (err e, v) ]

  unfoldable pub authenticate : Option (Context W) → Text → Io W Principal
  authenticate ctx token = do
    claims ← a.client.parse_jwt_token token
    unless_done ctx (principal_of a.cfg token claims)

  -- Authorize behind the test that the request has a principal.
  unfoldable pub authorize_known : Option (Context W) → Principal → Authz.Request → Io W Bool
  authorize_known ctx p req =
      if no_selector (enforce_selectors a.cfg)
      then fail (
          plain (
            codes
              "one of casdoor permission_id/model_id/resource_id/enforcer_id/owner is required"))
      else remote a ctx (
          a.client.enforce (enforce_selectors a.cfg)
            (casbin_req (subject p) req.domain req.resource req.action req.extra))

  abbrev authorize_by : Option (Context W) → Option Principal → Authz.Request → Io W Bool
  authorize_by ctx none req = fail (sentinel Sentinel.missing_principal)
  authorize_by ctx (some p) req = authorize_known ctx p req

  unfoldable pub authorize : Option (Context W) → Authz.Request → Io W Bool
  unfolding authorize_known
  authorize ctx req = authorize_by ctx req.principal req

  -- The record that Record sends, given its name, the time and the JSON text.
  unfoldable pub audit_record : Audit.Event → Text → Text → Text → AuditRecord
  audit_record event name created object = record {
    owner = a.cfg.organization;
    name = name;
    created_time = created;
    organization = actor_org a.cfg.organization event.actor;
    client_ip = event.client_ip;
    user = actor_id event.actor;
    method = event.method;
    request_uri = first_non_empty (event.uri ∷ event.operation ∷ []);
    action = event.action;
    status_code = event.status_code;
    response = event.message;
    object = object;
    is_triggered = true;
  }

  abbrev made_name : Platform W → Text → W → Text × W
  made_name platform [] w = platform.random_name (codes "record") w
  made_name platform (c ∷ name) w = (c ∷ name, w)

  unfoldable pub record_audit : Platform W → Option (Context W) → Audit.Event → Io W (Unit {0})
  unfolding audit_record
  record_audit platform ctx event w =
      let (name, w₁) = made_name platform event.name w in
      let (created, w₂) = platform.format_now w₁ in
      let sent = audit_record event name created (or_braces (platform.marshal event)) in
      and_then (λ _. pure tt) (remote a ctx (a.client.add_record sent) w₂)

-- The adapter as an authz.Authorizer.
abbrev pub authorizer : {W : Type 0} → Adapter W → Authz.Authorizer W
authorizer a = record { authorize = authorize a }
