-- ===== src/Permission.antt =====
-- permission/permission.go: grants, their normalization, and the expansion of roles into actions.
use aisphere_kit.Base.{
  Text, Any, codes, Bool, true, false, ◌&&◌, ◌||◌, not, List, [], ◌∷◌, ◌++◌, Option, none, some, Io,
  Result, ok, err, fail, Error, Sentinel, sentinel, wrapped, is_empty, is_none, if◌then◌else◌,
  trim_space, ◌==◌, and_then, pure,
}
use aisphere_kit.Base.Clock.{Time}
use aisphere_kit.Context.{Context}
use aisphere_kit.Principal.Defs
use aisphere_kit.Principal.Defs.{Principal}
mod Tests
pub mod Roles
pub mod Normalize
pub mod Checking

-- SubjectPublic, RoleViewer, RoleEditor, RoleOwner
abbrev pub subject_public : Text
subject_public = codes "public"

abbrev pub role_viewer : Text
role_viewer = codes "viewer"

abbrev pub role_editor : Text
role_editor = codes "editor"

abbrev pub role_owner : Text
role_owner = codes "owner"

-- resource.Name is a string type.
abbrev pub ResourceName : Type 0
ResourceName = Text

-- `expires_at = none` is the nil pointer.
pub record Grant : Type 0 where
  pub subject : Text
  pub subject_type : Text
  pub subject_id : Text
  pub resource : ResourceName
  pub action : Text
  pub role : Text
  pub actions : List Text
  pub domain : Text
  pub granted_by : Text
  pub expires_at : Option Time
  pub metadata : List (Text × Any)

pub record ShareRequest : Type 0 where
  pub resource : ResourceName
  pub subject_type : Text
  pub subject_id : Text
  pub role : Text
  pub actions : List Text
  pub domain : Text
  pub granted_by : Text
  pub expires_at : Option Time
  pub metadata : List (Text × Any)

pub record CheckRequest : Type 0 where
  pub subject : Text
  pub principal : Option Principal
  pub resource : ResourceName
  pub action : Text
  pub domain : Text
  pub extra : List Any

pub record ListFilter : Type 0 where
  pub subject : Text
  pub resource : ResourceName
  pub action : Text
  pub domain : Text

pub record DeleteResourceRequest : Type 0 where
  pub resource : ResourceName
  pub reason : Text
  pub actor : Text

-- `_, ok := seen[a]`
unfoldable pub contains : Text → List Text → Bool
contains a [] = false
contains a (b ∷ seen) = a == b || contains a seen

-- One round of the loop of cleanActions; `seen` holds the keys of the map.
unfoldable pub clean_loop : List Text → List Text → List Text
clean_loop seen [] = []
clean_loop seen (a ∷ rest) =
    let kept = trim_space a ∷ clean_loop (trim_space a ∷ seen) rest in
    let skipped = clean_loop seen rest in
    if is_empty (trim_space a) || contains (trim_space a) seen then skipped else kept

unfoldable pub clean_actions : List Text → List Text
clean_actions actions = clean_loop [] actions

abbrev pub viewer_actions : List Text
viewer_actions = codes "skill.read" ∷ codes "skill.download" ∷ []

abbrev pub editor_actions : List Text
editor_actions =
    codes "skill.read"
    ∷ codes "skill.download"
    ∷ codes "skill.update"
    ∷ codes "skill.upload"
    ∷ codes "skill.publish"
    ∷ []

abbrev pub owner_actions : List Text
owner_actions =
    codes "skill.read"
    ∷ codes "skill.download"
    ∷ codes "skill.update"
    ∷ codes "skill.upload"
    ∷ codes "skill.publish"
    ∷ codes "skill.share"
    ∷ codes "skill.delete"
    ∷ []

-- RoleActionMapper
abbrev pub RoleActionMapper : Type 0
RoleActionMapper = ResourceName → Text → List Text → Result (List Text)

-- The switch on the role.
unfoldable pub role_table : Text → Result (List Text)
role_table role =
    if role == role_viewer
    then ok viewer_actions
    else if role == role_editor
    then ok editor_actions
    else if role == role_owner
    then ok owner_actions
    else if is_empty role
    then err (sentinel Sentinel.empty_role)
    else err (wrapped [] (sentinel Sentinel.unsupported_role) (b':' ∷ b' ' ∷ role))

unfoldable pub default_role_action_mapper : RoleActionMapper
default_role_action_mapper res role [] = role_table role
default_role_action_mapper res role (a ∷ custom) = ok (clean_actions (a ∷ custom))

-- The process-wide mapper; `none` is a nil function.
unfoldable pub set_role_action_mapper : Option RoleActionMapper → RoleActionMapper
set_role_action_mapper none = default_role_action_mapper
set_role_action_mapper (some fn) = fn

-- RoleActionsForResource, with the installed mapper.
unfoldable pub role_actions_for_resource : Option RoleActionMapper → RoleActionMapper
role_actions_for_resource none = default_role_action_mapper
role_actions_for_resource (some fn) = fn

unfoldable pub role_actions : Option RoleActionMapper → Text → List Text → Result (List Text)
role_actions mapper role custom = role_actions_for_resource mapper [] role custom

-- The package function Subject.
unfoldable pub subject : Text → Text → Text
subject subject_type id =
    if is_empty (trim_space subject_type)
    then trim_space id
    else if is_empty (trim_space id)
    then trim_space subject_type
    else trim_space subject_type ++ (b':' ∷ trim_space id)

unfoldable pub subject_from_principal : Option Principal → Text
subject_from_principal none = []
subject_from_principal (some p) = Defs.subject p

-- The grant with the fields that NormalizeGrant rewrites.
unfoldable pub tidy : Grant → Grant
tidy g = record g {
  subject = trim_space (
      if is_empty g.subject && not (is_empty g.subject_type)
      then subject g.subject_type g.subject_id
      else g.subject);
  action = trim_space g.action;
  role = trim_space g.role;
}

-- The checks of NormalizeGrant, on the rewritten grant.
unfoldable pub checked : Grant → Result Grant
checked g =
    if is_empty g.subject
    then err (sentinel Sentinel.empty_subject)
    else if is_empty g.resource
    then err (sentinel Sentinel.empty_resource)
    else if is_empty g.action && is_empty g.role && is_empty g.actions
    then err (sentinel Sentinel.empty_action)
    else if not (is_none g.expires_at)
    then err
        (wrapped [] (sentinel Sentinel.not_supported) (codes ": expires_at on Casbin policy grant"))
    else ok g

unfoldable pub normalize_grant : Grant → Result Grant
normalize_grant g = checked (tidy g)

-- The grant that NormalizeShare hands on.
unfoldable pub shared_grant : ShareRequest → Grant
shared_grant req = record {
  subject = subject req.subject_type req.subject_id;
  subject_type = req.subject_type;
  subject_id = req.subject_id;
  resource = req.resource;
  action = [];
  role = req.role;
  actions = req.actions;
  domain = req.domain;
  granted_by = req.granted_by;
  expires_at = req.expires_at;
  metadata = req.metadata;
}

unfoldable pub normalize_share : ShareRequest → Result Grant
normalize_share req =
    if is_empty req.subject_type
    then err (sentinel Sentinel.empty_subject)
    else if not (req.subject_type == subject_public) && is_empty req.subject_id
    then err (sentinel Sentinel.empty_subject)
    else if is_empty req.resource
    then err (sentinel Sentinel.empty_resource)
    else if is_empty req.role && is_empty req.actions
    then err (sentinel Sentinel.empty_role)
    else normalize_grant (shared_grant req)

-- The methods of Manager that the package itself and the theorems use.
pub record Manager (W : Type 0) : Type 0 where
  pub grant : Option (Context W) → Grant → Io W (Unit {0})
  pub grant_role : Option (Context W) → Grant → Io W (Unit {0})
  pub share : Option (Context W) → ShareRequest → Io W (Unit {0})
  pub revoke : Option (Context W) → Grant → Io W (Unit {0})
  pub check : Option (Context W) → CheckRequest → Io W Bool
  pub list : Option (Context W) → ListFilter → Io W (List Grant)
  pub delete_resource_policies : Option (Context W) → ResourceName → Io W (Unit {0})
  pub delete_resource_policies_ex : Option (Context W) → DeleteResourceRequest → Io W (Unit {0})

-- `if req.Subject == "" && req.Principal != nil { … }`
unfoldable pub fill_subject : CheckRequest → CheckRequest
fill_subject req =
    if is_empty req.subject && not (is_none req.principal)
    then record req { subject = subject_from_principal req.principal }
    else req

abbrev pub permission_verdict : {W : Type 0} → Result Bool × W → Result (Unit {0}) × W
permission_verdict (ok true, w) = (ok tt, w)
permission_verdict (ok false, w) = (err (sentinel Sentinel.permission_denied), w)
permission_verdict (err e, w) = (err e, w)

module _ {W : Type 0} where
  unfoldable pub require_filled : Option (Context W) → Manager W → CheckRequest → Io W (Unit {0})
  require_filled ctx mgr req w =
      if is_empty req.subject
      then (err (sentinel Sentinel.empty_subject), w)
      else if is_empty req.resource
      then (err (sentinel Sentinel.empty_resource), w)
      else if is_empty req.action
      then (err (sentinel Sentinel.empty_action), w)
      else permission_verdict (mgr.check ctx req w)

  unfoldable pub require : Option (Context W) → Option (Manager W) → CheckRequest → Io W (Unit {0})
  require ctx none req w = (err (sentinel Sentinel.manager_nil), w)
  require ctx (some mgr) req w = require_filled ctx mgr (fill_subject req) w
