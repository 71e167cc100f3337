-- ===== src/Audit.antt =====
-- audit/audit.go: audit events, Normalize, Record and Merge.
use aisphere_kit.Base.{
  Text, Any, codes, Bool, true, false, ◌||◌, List, [], ◌∷◌, ◌++◌, Option, none, some, Io, Result,
  ok, err, fail, pure, ◌>>=◌, and_then, Error, is_empty, if◌then◌else◌, ℕ, is_none, first_non_empty,
  eqb, text_of, not,
}
use aisphere_kit.Base.Clock.{ℤ, pos, Time, Clock, is_zero_time, is_zero_int, time_sub}
use aisphere_kit.Context.{Context}
use aisphere_kit.Principal.Defs.{Principal}
use aisphere_kit.Principal.Lookup.{from_context}
mod Tests
pub mod Laws
pub mod Async
pub mod Merge

-- ResultSuccess, ResultFailed
abbrev pub result_success : Text
result_success = codes "success"

abbrev pub result_failed : Text
result_failed = codes "failed"

-- `metadata = none` is the nil map.
pub record Event : Type 0 where
  pub name : Text
  pub actor : Option Principal
  pub action : Text
  pub resource : Text
  pub result : Text
  pub message : Text
  pub request_id : Text
  pub trace_id : Text
  pub client_ip : Text
  pub user_agent : Text
  pub method : Text
  pub uri : Text
  pub operation : Text
  pub status_code : ℤ
  pub component : Text
  pub org_id : Text
  pub project_id : Text
  pub started_at : Time
  pub finished_at : Time
  pub duration : ℤ
  pub metadata : Option (List (Text × Text))

pub record Recorder (W : Type 0) : Type 0 where
  pub record_event : Option (Context W) → Event → W → Option Error × W

-- `if s == "" { s = t }`
abbrev pub default_text : Text → Text → Text
default_text [] t = t
default_text (c ∷ s) t = c ∷ s

-- `if n == 0 { n = m }`
abbrev pub default_code : ℤ → ℤ → ℤ
default_code n m = if is_zero_int n then m else n

-- `if t.IsZero() { t = time.Now() }`
unfoldable pub stamp : {W : Type 0} → Clock W → Time → W → Time × W
stamp clock t w = if is_zero_time t then clock.now w else (t, w)

-- The result, the status code and the message, by whether there is an error.
unfoldable pub fill_outcome : Event → Option Error → Event
fill_outcome base none = record base {
  result = default_text base.result result_success;
  status_code = default_code base.status_code (pos 200);
}
fill_outcome base (some e) = record base {
  result = default_text base.result result_failed;
  status_code = default_code base.status_code (pos 500);
  message = default_text base.message (text_of e);
}

-- The actor and what the event takes from it.
unfoldable pub fill_actor : Event → Option Principal → Event
fill_actor base none = base
fill_actor base (some p) = record base {
  actor = some p;
  org_id = default_text base.org_id p.org_id;
  project_id = default_text base.project_id p.project_id;
}

-- fmt.Sprintf("%s:%s", firstNonEmpty(base.Action, base.Operation), base.Resource)
unfoldable pub fill_name : Event → Event
fill_name base = record base {
  name =
      default_text base.name
        (first_non_empty (base.action ∷ base.operation ∷ []) ++ (b':' ∷ base.resource));
}

module _ {W : Type 0} (clock : Clock W) where
  unfoldable pub normalize : Option (Context W) → Event → Option Error → W → Event × W
  unfolding stamp fill_outcome fill_actor fill_name
  normalize ctx base e w =
      let (started, w₁) = stamp clock base.started_at w in
      let (finished, w₂) = stamp clock base.finished_at w₁ in
      let timed = record base {
        started_at = started;
        finished_at = finished;
        duration = time_sub finished started;
      } in
      (fill_name (fill_actor (fill_outcome timed e) (from_context ctx)), w₂)

-- Record of the package, with a recorder that may be nil.
unfoldable pub record_with :
    {W : Type 0} → Option (Context W) → Option (Recorder W) → Event → W → Option Error × W
record_with ctx none ev w = (none, w)
record_with ctx (some r) ev w = r.record_event ctx ev w

-- `if override != "" { base = override }`
abbrev override_text : Text → Text → Text
override_text base [] = base
override_text base (c ∷ s) = c ∷ s

abbrev override_pointer : {A : Type 0} → Option A → Option A → Option A
override_pointer base none = base
override_pointer base (some a) = some a

unfoldable pub merge : Event → Event → Event
merge base override = record {
  name = override_text base.name override.name;
  actor = override_pointer base.actor override.actor;
  action = override_text base.action override.action;
  resource = override_text base.resource override.resource;
  result = override_text base.result override.result;
  message = override_text base.message override.message;
  request_id = override_text base.request_id override.request_id;
  trace_id = override_text base.trace_id override.trace_id;
  client_ip = override_text base.client_ip override.client_ip;
  user_agent = override_text base.user_agent override.user_agent;
  method = override_text base.method override.method;
  uri = override_text base.uri override.uri;
  operation = override_text base.operation override.operation;
  status_code = if is_zero_int override.status_code then base.status_code else override.status_code;
  component = override_text base.component override.component;
  org_id = override_text base.org_id override.org_id;
  project_id = override_text base.project_id override.project_id;
  started_at = if is_zero_time override.started_at then base.started_at else override.started_at;
  finished_at =
      if is_zero_time override.finished_at then base.finished_at else override.finished_at;
  duration = if is_zero_int override.duration then base.duration else override.duration;
  metadata = override_pointer base.metadata override.metadata;
}

-- The event whose fields are all zero values.
abbrev pub zero_event : Event
zero_event = record {
  name = [];
  actor = none;
  action = [];
  resource = [];
  result = [];
  message = [];
  request_id = [];
  trace_id = [];
  client_ip = [];
  user_agent = [];
  method = [];
  uri = [];
  operation = [];
  status_code = pos 0;
  component = [];
  org_id = [];
  project_id = [];
  started_at = 0;
  finished_at = 0;
  duration = pos 0;
  metadata = none;
}
