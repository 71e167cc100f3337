-- ===== src/Casdoor/Tests.antt =====
-- casdoor: the theorems at concrete inputs.
use aisphere_kit.Base.{
  Text, true, false, if◌then◌else◌, [], ◌∷◌, Option, none, some, ok, err, ◌≡◌, ◌↔◌, refl,
  trim_space, trim, trim_left, trim_right, is_space, first_non_empty, codes, ◌==◌,
}
use aisphere_kit.Principal.Defs.{subject}
use aisphere_kit.Authz
use aisphere_kit.Permission
use aisphere_kit.Permission.{
  Grant, ShareRequest, RoleActionMapper, normalize_grant, normalize_share, tidy, checked,
  shared_grant, role_actions_for_resource,
}
use aisphere_kit.Retry.{retry, loop}
use aisphere_kit.Casdoor.Oauth.{ExchangeCodeRequest, code_form}
use aisphere_kit.Casdoor.Oauth.Exchange.{Grants, get, code_form_lem}
use aisphere_kit.Starter.Sample.{sample_config}
use aisphere_kit.Casdoor.Client.{CasbinRule}
use aisphere_kit.Casdoor.Settings.{enforce_selectors}
use aisphere_kit.Casdoor.Calls.{remote, call_with_context}
use aisphere_kit.Casdoor.Policy.{
  policy_target, grant, grant_role, share, revoke, list, collect, add_policy, remove_policy,
  add_each, remove_each, remove_grants, revoked_actions, delete_resource_policies,
  delete_resource_policies_ex, only_resource, grant_of, rule_of, check,
}
use aisphere_kit.Casdoor.Policy.Grants.{Done, grant-Done, revoke-Done}
use aisphere_kit.Casdoor.Policy.Listing.{Returned, Comes, list-selects}
use aisphere_kit.Casdoor.Policy.Deletion.{delete_resource_policies_lem}
use aisphere_kit.Casdoor.Identity.{authorize, authorize_known, no_selector, casbin_req}
use aisphere_kit.Casdoor.Identity.Decisions.{question, check_of, unconfigured, authorize-check}
use aisphere_kit.Casdoor.Sample.{adapter, config, target, store, undisturbed, rule, client}
use aisphere_kit.Samples.{al, doc, read, user, alice, quiet}

-- Every role stands for reading.
abbrev reader : Option RoleActionMapper
reader = some (λ res role custom. ok (read ∷ []))

abbrev request : Grant
request = record {
  subject = al;
  subject_type = [];
  subject_id = [];
  resource = doc;
  action = read;
  role = [];
  actions = [];
  domain = [];
  granted_by = [];
  expires_at = none;
  metadata = [];
}

abbrev role_request : Grant
role_request = record request { action = []; role = user }

abbrev share_request : ShareRequest
share_request = record {
  resource = doc;
  subject_type = al;
  subject_id = b' ' ∷ [];
  role = user;
  actions = [];
  domain = [];
  granted_by = [];
  expires_at = none;
  metadata = [];
}

configured : policy_target config ≡ ok target
unfolding policy_target trim_space trim trim_left trim_right is_space first_non_empty
configured = refl

granted : grant adapter (some quiet) reader request false ≡ (ok tt, true)
unfolding grant normalize_grant tidy checked trim_space trim trim_left trim_right is_space
    add_policy policy_target first_non_empty remote call_with_context retry loop ◌==◌ codes
granted = refl

role_granted : grant_role adapter (some quiet) reader role_request false ≡ (ok tt, true)
unfolding grant_role normalize_grant tidy checked role_actions_for_resource add_each trim_space trim
    trim_left trim_right is_space add_policy policy_target first_non_empty remote call_with_context
    retry loop ◌==◌ codes
role_granted = refl

revoked : revoke adapter (some quiet) reader request true ≡ (ok tt, false)
unfolding revoke normalize_grant tidy checked revoked_actions remove_each trim_space trim trim_left
    trim_right is_space remove_policy policy_target first_non_empty remote call_with_context retry
    loop ◌==◌ codes
revoked = refl

listed : list adapter (some quiet) (only_resource doc) true ≡ (ok (grant_of rule ∷ []), true)
unfolding list collect trim_space trim trim_left trim_right is_space policy_target first_non_empty
    remote call_with_context retry loop ◌==◌ codes
listed = refl

deleted : delete_resource_policies adapter (some quiet) doc true ≡ (ok tt, false)
unfolding delete_resource_policies delete_resource_policies_ex remove_grants list collect
    remove_policy trim_space trim trim_left trim_right is_space policy_target first_non_empty remote
    call_with_context retry loop ◌==◌ codes
deleted = refl

grant-Done_example :
    (g : Grant) × (normalize_grant request ≡ ok g)
    × Done adapter store (some quiet) undisturbed target configured reader true g false true
grant-Done_example =
    grant-Done adapter store (some quiet) undisturbed target configured reader request false true
      granted

revoke-Done_example :
    (g : Grant) × (normalize_grant request ≡ ok g)
    × Done adapter store (some quiet) undisturbed target configured reader false g true false
revoke-Done_example =
    revoke-Done adapter store (some quiet) undisturbed target configured reader request true false
      revoked

list-selects_example :
    ((g : Grant)
      → Returned g (grant_of rule ∷ [])
        ↔ Comes adapter store (some quiet) undisturbed target configured (only_resource doc) true g)
    × ((n : Text) (s : CasbinRule) → store.holds true n s ≡ store.holds true n s)
list-selects_example =
    list-selects adapter store (some quiet) undisturbed target configured (only_resource doc) true
      true (grant_of rule ∷ []) listed

delete_resource_policies_example :
    ((subject action : Text) → store.holds false doc (rule_of subject doc action) ≡ false)
    × ((n : Text) (s : CasbinRule)
        → ¬ ((n ≡ doc) × (s.v1 ≡ doc))
        → store.holds false n s ≡ store.holds true n s)
delete_resource_policies_example =
    delete_resource_policies_lem adapter store (some quiet) undisturbed target configured doc true
      false deleted

abbrev request_read : Authz.Request
request_read = record {
  principal = some alice;
  resource = doc;
  action = read;
  domain = [];
  extra = [];
}

answered : authorize adapter (some quiet) request_read true ≡ (ok true, true)
unfolding authorize authorize_known casbin_req enforce_selectors remote call_with_context retry loop
answered = refl

authorize-check_example :
    (authorize adapter (some quiet) request_read true ≡ (
      if no_selector (enforce_selectors config)
      then (err unconfigured, true)
      else check adapter (some quiet) (check_of alice request_read) true))
    × (check adapter (some quiet) (check_of alice request_read) true
        ≡ remote adapter
            (some quiet)
            (client.enforce (enforce_selectors config) (question alice request_read))
            true)
authorize-check_example =
    authorize-check adapter (some quiet) alice request_read true refl (unfold subject in refl) refl
      refl

shared : share adapter (some quiet) reader share_request false ≡ (ok tt, true)
unfolding share grant_role normalize_share shared_grant Permission.subject normalize_grant tidy
    checked role_actions_for_resource add_each trim_space trim trim_left trim_right is_space
    add_policy policy_target first_non_empty remote call_with_context retry loop ◌==◌ codes
shared = refl

abbrev code_request : ExchangeCodeRequest
code_request = record { code = doc; redirect_uri = read; extra = (codes "client_id", al ∷ []) ∷ [] }

-- The extra values of the request name another client, which stays behind the one of the settings.
code_form_lem_example :
    Grants sample_config.casdoor
      (codes "authorization_code")
      (code_form sample_config.casdoor code_request)
    × (get (code_form sample_config.casdoor code_request) (codes "code") ≡ some doc)
    × (get (code_form sample_config.casdoor code_request) (codes "redirect_uri") ≡ some read)
code_form_lem_example = code_form_lem sample_config.casdoor code_request
