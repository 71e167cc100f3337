-- ===== src/Access.antt =====
-- access/access.go: the Guard, which combines the principal of the context, the authorizer and the
-- audit recorder. A nil *Guard is `none`.
use aisphere_kit.Base.{
  Text, Any, codes, Bool, true, false, ◌||◌, List, [], ◌∷◌, ◌++◌, Option, none, some, Io, Result,
  ok, err, fail, pure, ◌>>=◌, and_then, Error, is_empty, if◌then◌else◌, ℕ, is_none, first_non_empty,
  eqb, text_of, sentinel, Sentinel,
}
use aisphere_kit.Base.Clock.{ℤ, pos, Time, Clock, is_zero_time}
use aisphere_kit.Context.{Context}
use aisphere_kit.Principal.Defs.{Principal}
use aisphere_kit.Principal.Lookup.{require_from_context}
use aisphere_kit.Authz
use aisphere_kit.Authz.{Authorizer, require_principal}
use aisphere_kit.Audit
use aisphere_kit.Audit.{
  Recorder, result_success, result_failed, default_text, default_code, stamp, normalize,
  record_with,
}
mod Tests
pub mod Decisions
pub mod Auditing

pub record Check : Type 0 where
  pub resource : Text
  pub action : Text
  pub domain : Text
  pub reason : Text
  pub extra : List Any

pub record Event : Type 0 where
  pub name : Text
  pub action : Text
  pub resource : Text
  pub result : Text
  pub message : Text
  pub request_id : Text
  pub trace_id : Text
  pub client_ip : Text
  pub user_agent : Text
  pub method : Text
  pub uri : Text
  pub operation : Text
  pub status_code : ℤ
  pub component : Text
  pub org_id : Text
  pub project_id : Text
  pub started_at : Time
  pub finished_at : Time
  pub metadata : Option (List (Text × Text))

-- Options and Guard have the same fields; NewGuard copies them.
pub record Guard (W : Type 0) : Type 0 where
  pub authz : Option (Authorizer W)
  pub audit : Option (Recorder W)
  pub component : Text

abbrev pub request_from : Principal → Check → Authz.Request
request_from p check = record {
  principal = some p;
  resource = check.resource;
  action = check.action;
  domain = check.domain;
  extra = check.extra;
}

-- `g.authz`, and nil for a nil guard.
abbrev pub authz_of : {W : Type 0} → Option (Guard W) → Option (Authorizer W)
authz_of none = none
authz_of (some g) = g.authz

module _ {W : Type 0} where
  unfoldable pub can_known :
      Option (Context W) → Option (Authorizer W) → Principal → Check → Io W Bool
  can_known ctx none p check = fail (sentinel Sentinel.not_configured)
  can_known ctx (some a) p check =
      if is_empty check.resource || is_empty check.action
      then fail (sentinel Sentinel.empty_authorization)
      else a.authorize ctx (request_from p check)

  unfoldable pub can : Option (Guard W) → Option (Context W) → Check → Io W Bool
  unfolding can_known
  can g ctx check w = elim (require_from_context ctx) [
    | err e ↦ (err e, w)
    | ok p ↦ can_known ctx (authz_of g) p check w
  ]

  unfoldable pub require_known :
      Option (Context W) → Option (Authorizer W) → Principal → Check → Io W Principal
  require_known ctx none p check = fail (sentinel Sentinel.not_configured)
  require_known ctx (some a) p check =
      if is_empty check.resource || is_empty check.action
      then fail (sentinel Sentinel.empty_authorization)
      else require_principal ctx (some a) (some p) check.resource check.action >>= λ _. pure p

  unfoldable pub require : Option (Guard W) → Option (Context W) → Check → Io W Principal
  unfolding require_known
  require g ctx check w = elim (require_from_context ctx) [
    | err e ↦ (err e, w)
    | ok p ↦ require_known ctx (authz_of g) p check w
  ]

-- The audit event for a business event, its actor and its duration still unset.
unfoldable pub to_audit : Event → Text → Time → Time → Audit.Event
to_audit ev component started finished = record {
  name = ev.name;
  actor = none;
  action = ev.action;
  resource = ev.resource;
  result = ev.result;
  message = ev.message;
  request_id = ev.request_id;
  trace_id = ev.trace_id;
  client_ip = ev.client_ip;
  user_agent = ev.user_agent;
  method = ev.method;
  uri = ev.uri;
  operation = ev.operation;
  status_code = ev.status_code;
  component = first_non_empty (ev.component ∷ component ∷ []);
  org_id = ev.org_id;
  project_id = ev.project_id;
  started_at = started;
  finished_at = finished;
  duration = pos 0;
  metadata = ev.metadata;
}

-- The result, message and status code that a denial forces on the event.
unfoldable pub mark_denied : Event → Error → Event
mark_denied ev e = record ev {
  result = result_failed;
  message = default_text ev.message (text_of e);
  status_code = default_code ev.status_code (pos 403);
}

unfoldable pub mark_granted : Event → Event
mark_granted ev = record ev { result = first_non_empty (ev.result ∷ result_success ∷ []) }

module _ {W : Type 0} (clock : Clock W) where
  -- Record behind the test that the guard and its recorder are not nil.
  unfoldable pub record_known :
      Guard W → Recorder W → Option (Context W) → Event → W → Option Error × W
  unfolding to_audit
  record_known g r ctx ev w =
      let (now, w₁) = clock.now w in
      let started = if is_zero_time ev.started_at then now else ev.started_at in
      let finished = if is_zero_time ev.finished_at then now else ev.finished_at in
      let (aev, w₂) = normalize clock ctx (to_audit ev g.component started finished) none w₁ in
      record_with ctx (some r) aev w₂

  abbrev record_by :
      Guard W → Option (Recorder W) → Option (Context W) → Event → W → Option Error × W
  record_by g none ctx ev w = (none, w)
  record_by g (some r) ctx ev w = record_known g r ctx ev w

  unfoldable pub record_event : Option (Guard W) → Option (Context W) → Event → W → Option Error × W
  unfolding record_known
  record_event none ctx ev w = (none, w)
  record_event (some g) ctx ev w = record_by g g.audit ctx ev w

  -- What RequireAndAudit does with the result of Require.
  abbrev pub audit_result :
      Option (Guard W) → Option (Context W) → Event → Result Principal × W → Result Principal × W
  audit_result g ctx ev (err e, w) = (err e, (record_event g ctx (mark_denied ev e) w).1)
  audit_result g ctx ev (ok p, w) = (ok p, (record_event g ctx (mark_granted ev) w).1)

  unfoldable pub require_and_audit :
      Option (Guard W) → Option (Context W) → Check → Event → Io W Principal
  require_and_audit g ctx check ev w = audit_result g ctx ev (require g ctx check w)
