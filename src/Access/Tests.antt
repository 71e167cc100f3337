-- ===== src/Access/Tests.antt =====
-- access/access.go: the theorems at concrete inputs.
use Prim.Native.Nat.{ℕ, suc}
use aisphere_kit.Base.{false, [], none, some, ok, err, ◌≡◌, refl}
use aisphere_kit.Base.Clock.{pos}
use aisphere_kit.Principal.Defs.{is_zero}
use aisphere_kit.Principal.Lookup.{from_context, require_from_context}
use aisphere_kit.Authz
use aisphere_kit.Authz.{require_principal, denial}
use aisphere_kit.Audit
use aisphere_kit.Audit.{Recorder, result_failed, result_success, default_text, default_code}
use aisphere_kit.Access.{Check, Event, Guard, require, require_known, can, require_and_audit}
use aisphere_kit.Access.Decisions.{
  require-iff-IsPermitted, IsPermitted, Agree-can-require, Agree, plain_check,
  require_despite_domain, global_guard,
}
use aisphere_kit.Access.Auditing.{
  require_and_audit_denied, require_and_audit_granted, IsAuditOf, Reads,
}
use aisphere_kit.Samples.{
  alice, al, doc, read, context_of_alice, allow_all, deny_all, stopped_clock,
}

-- The world counts the audit events.
abbrev counter : Recorder ℕ
counter = record { record_event = λ ctx ev n. (none, suc n) }

abbrev guard : Guard ℕ
guard = record { authz = some allow_all; audit = some counter; component = doc }

abbrev closed_guard : Guard ℕ
closed_guard = record { authz = some deny_all; audit = some counter; component = doc }

abbrev check : Check
check = plain_check doc read []

abbrev check_in_domain : Check
check_in_domain = record check { domain = al }

abbrev event : Event
event = record {
  name = [];
  action = read;
  resource = doc;
  result = [];
  message = [];
  request_id = [];
  trace_id = [];
  client_ip = [];
  user_agent = [];
  method = [];
  uri = [];
  operation = [];
  status_code = pos 0;
  component = [];
  org_id = [];
  project_id = [];
  started_at = 0;
  finished_at = 0;
  metadata = none;
}

permitted : require (some guard) context_of_alice check 0 ≡ (ok alice, 0)
unfolding require require_known require_from_context from_context is_zero Authz.require_principal
    Authz.require_known
permitted = refl

refused : require (some closed_guard) context_of_alice check 0 ≡ (err (denial alice doc read), 0)
unfolding require require_known require_from_context from_context is_zero Authz.require_principal
    Authz.require_known
refused = refl

require-iff-IsPermitted_example : IsPermitted (some guard) context_of_alice check alice 0 0
require-iff-IsPermitted_example =
    (require-iff-IsPermitted (some guard) context_of_alice check alice 0 0).0 permitted

Agree-can-require_example :
    Agree
      (can (some guard) context_of_alice check 0)
      (require (some guard) context_of_alice check 0)
Agree-can-require_example = Agree-can-require (some guard) context_of_alice doc read [] 0

require_despite_domain_example :
    (can {W = ℕ} (global_guard none doc) context_of_alice check_in_domain 0 ≡ (ok false, 0))
    × (require {W = ℕ} (global_guard none doc) context_of_alice check_in_domain 0 ≡ (ok alice, 0))
unfolding from_context is_zero
require_despite_domain_example =
    require_despite_domain context_of_alice alice check_in_domain 0 refl refl refl refl refl none
      doc

require_and_audit_denied_example :
    (aev : Audit.Event) × (v : ℕ) × Reads stopped_clock 0 v
    × (require_and_audit stopped_clock (some closed_guard) context_of_alice check event 0
        ≡ (err (denial alice doc read), suc v))
    × IsAuditOf event aev (from_context {W = ℕ} context_of_alice) result_failed
    × (aev.status_code ≡ default_code (pos 0) (pos 403))
require_and_audit_denied_example =
    require_and_audit_denied stopped_clock closed_guard counter refl context_of_alice check event 0
      0 (denial alice doc read) refused

require_and_audit_granted_example :
    (aev : Audit.Event) × (v : ℕ) × Reads stopped_clock 0 v
    × (require_and_audit stopped_clock (some guard) context_of_alice check event 0
        ≡ (ok alice, suc v))
    × IsAuditOf event aev (from_context {W = ℕ} context_of_alice) (default_text [] result_success)
require_and_audit_granted_example =
    require_and_audit_granted stopped_clock guard counter refl context_of_alice check event 0 0
      alice permitted
