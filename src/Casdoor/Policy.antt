-- ===== src/Casdoor/Policy.antt =====
-- casdoor/policy.go: permission management by way of Casdoor policies.
use aisphere_kit.Base.{
  Text, Any, str, codes, Bool, true, false, ◌&&◌, ◌||◌, not, List, [], ◌∷◌, ◌++◌, map, Option, none,
  some, Io, Result, ok, err, pure, fail, lift, ◌>>=◌, ◌>>◌, and_then, Error, plain, sentinel,
  Sentinel, is_empty, is_none, if◌then◌else◌, trim_space, ◌==◌, first_non_empty,
}
use aisphere_kit.Context.{Context}
use aisphere_kit.Permission.{
  Grant, ShareRequest, CheckRequest, ListFilter, DeleteResourceRequest, ResourceName,
  RoleActionMapper, Manager, normalize_grant, normalize_share, role_actions_for_resource,
  subject_from_principal,
}
use aisphere_kit.Casdoor.Client.{CasbinRule, Enforcer, Client}
use aisphere_kit.Casdoor.Settings.{Config, enforce_selectors}
use aisphere_kit.Casdoor.Calls.{Adapter, remote}
pub mod Store
pub mod Effects
pub mod Grants
pub mod Deletion
pub mod Listing

abbrev pub p_type : Text
p_type = codes "p"

-- &casdoorsdk.CasbinRule{Ptype: "p", V0: subject, V1: object, V2: action}
abbrev pub rule_of : Text → Text → Text → CasbinRule
rule_of subject object action = record {
  ptype = p_type;
  v0 = subject;
  v1 = object;
  v2 = action;
  rest = [];
}

-- The enforcer and the adapter id that policyTarget returns.
pub record Target : Type 0 where
  pub enforcer : Enforcer
  pub adapter_id : Text

unfoldable pub policy_target : Config → Result Target
policy_target cfg =
    let name = trim_space (first_non_empty (cfg.policy_enforcer ∷ cfg.enforcer_id ∷ [])) in
    if is_empty name
    then err
        (plain (codes "casdoor policy_enforcer or enforcer_id is required for policy management"))
    else ok (record {
      enforcer = record { owner = cfg.organization; name = name };
      adapter_id = trim_space cfg.policy_adapter_id;
    })

abbrev zero_grant : Grant
zero_grant = record {
  subject = [];
  subject_type = [];
  subject_id = [];
  resource = [];
  action = [];
  role = [];
  actions = [];
  domain = [];
  granted_by = [];
  expires_at = none;
  metadata = [];
}

-- permission.Grant{Subject: r.V0, Resource: resource.Name(r.V1), Action: r.V2}
abbrev pub grant_of : CasbinRule → Grant
grant_of r = record zero_grant { subject = r.v0; resource = r.v1; action = r.v2 }

-- A field of the filter that is empty matches everything.
abbrev pub passes : Text → Text → Bool
passes wanted value = is_empty wanted || wanted == value

abbrev pub selects : ListFilter → CasbinRule → Bool
selects filter r =
    (r.ptype == p_type)
    && passes filter.subject r.v0
    && passes filter.resource r.v1
    && passes filter.action r.v2

-- The loop of List over the rules; a nil rule is `none`.
unfoldable pub collect : ListFilter → List (Option CasbinRule) → List Grant
collect filter [] = []
collect filter (none ∷ rules) = collect filter rules
collect filter (some r ∷ rules) =
    if selects filter r then grant_of r ∷ collect filter rules else collect filter rules

abbrev pub only_resource : ResourceName → ListFilter
only_resource res = record { subject = []; resource = res; action = []; domain = [] }

-- The request that Check sends to the enforcer: the domain stands between the subject and the resource.
unfoldable pub casbin_request : Text → Text → Text → Text → List Any → List Any
casbin_request subject domain object action extra =
    if is_empty domain
    then str subject ∷ str object ∷ str action ∷ extra
    else str subject ∷ str domain ∷ str object ∷ str action ∷ extra

unfoldable pub check_subject : CheckRequest → Text
check_subject req =
    if is_empty (trim_space req.subject) && not (is_none req.principal)
    then subject_from_principal req.principal
    else trim_space req.subject

-- The actions that Revoke removes.
unfoldable pub revoked_actions : Option RoleActionMapper → Grant → Result (List Text)
revoked_actions mapper g =
    if is_empty g.action
    then role_actions_for_resource mapper g.resource g.role g.actions
    else ok (g.action ∷ [])

module _ {W : Type 0} (a : Adapter W) (ctx : Option (Context W)) where
  -- The answer of the server is only logged.
  unfoldable pub add_policy : Text → Text → Text → Io W (Unit {0})
  add_policy subject object action = do
    target ← lift (policy_target a.cfg)
    answer ← remote a ctx (a.client.add_policy target.enforcer (rule_of subject object action))
    pure tt

  unfoldable pub remove_policy : Text → Text → Text → Io W (Unit {0})
  remove_policy subject object action = do
    target ← lift (policy_target a.cfg)
    answer ← remote a ctx (a.client.remove_policy target.enforcer (rule_of subject object action))
    pure tt

  -- The loop over the actions of a grant.
  unfoldable pub add_each : Text → ResourceName → List Text → Io W (Unit {0})
  add_each subject res [] = pure tt
  add_each subject res (act ∷ acts) = do add_policy subject res act; add_each subject res acts

  unfoldable pub remove_each : Text → ResourceName → List Text → Io W (Unit {0})
  remove_each subject res [] = pure tt
  remove_each subject res (act ∷ acts) = do
    remove_policy subject res act
    remove_each subject res acts

  unfoldable pub list : ListFilter → Io W (List Grant)
  list filter = do
    target ← lift (policy_target a.cfg)
    rules ← remote a ctx (a.client.get_policies target.enforcer.name target.adapter_id)
    pure (collect filter rules)

  -- The loop of DeleteResourcePoliciesEx over the listed grants.
  unfoldable pub remove_grants : List Grant → Io W (Unit {0})
  remove_grants [] = pure tt
  remove_grants (g ∷ gs) = do remove_policy g.subject g.resource g.action; remove_grants gs

  unfoldable pub delete_resource_policies_ex : DeleteResourceRequest → Io W (Unit {0})
  delete_resource_policies_ex req =
      if is_empty req.resource
      then fail (sentinel Sentinel.empty_resource)
      else do grants ← list (only_resource req.resource); remove_grants grants

  unfoldable pub delete_resource_policies : ResourceName → Io W (Unit {0})
  delete_resource_policies res =
      delete_resource_policies_ex (record { resource = res; reason = []; actor = [] })

  unfoldable pub check : CheckRequest → Io W Bool
  check req =
      if is_empty (check_subject req)
      then fail (sentinel Sentinel.empty_subject)
      else if is_empty req.resource
      then fail (sentinel Sentinel.empty_resource)
      else if is_empty req.action
      then fail (sentinel Sentinel.empty_action)
      else remote a ctx (
          a.client.enforce (enforce_selectors a.cfg)
            (casbin_request (check_subject req) req.domain req.resource req.action req.extra))

  module _ (mapper : Option RoleActionMapper) where
    unfoldable pub grant_role : Grant → Io W (Unit {0})
    grant_role grant = do
      g ← lift (normalize_grant grant)
      actions ← lift (role_actions_for_resource mapper g.resource g.role g.actions)
      add_each g.subject g.resource actions

    unfoldable pub grant : Grant → Io W (Unit {0})
    grant request = do
      g ← lift (normalize_grant request)
      if is_empty g.action then grant_role g else add_policy g.subject g.resource g.action

    unfoldable pub share : ShareRequest → Io W (Unit {0})
    share req = do g ← lift (normalize_share req); grant_role g

    unfoldable pub revoke : Grant → Io W (Unit {0})
    revoke request = do
      g ← lift (normalize_grant request)
      actions ← lift (revoked_actions mapper g)
      remove_each g.subject g.resource actions

-- The adapter as a permission.Manager.
abbrev pub manager : {W : Type 0} → Adapter W → Option RoleActionMapper → Manager W
manager a mapper = record {
  grant = λ ctx. grant a ctx mapper;
  grant_role = λ ctx. grant_role a ctx mapper;
  share = λ ctx. share a ctx mapper;
  revoke = λ ctx. revoke a ctx mapper;
  check = check a;
  list = list a;
  delete_resource_policies = delete_resource_policies a;
  delete_resource_policies_ex = delete_resource_policies_ex a;
}
