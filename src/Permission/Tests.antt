-- ===== src/Permission/Tests.antt =====
-- permission/permission.go: the theorems at concrete inputs.
use aisphere_kit.Base.{
  true, [], ◌∷◌, none, ok, ◌≡◌, refl, trim_space, trim, trim_left, trim_right, is_space,
}
use aisphere_kit.Permission.{
  Grant, ShareRequest, CheckRequest, Manager, normalize_grant, normalize_share, tidy, checked,
}
use aisphere_kit.Permission.Normalize.{IsNormal, normalize_grant-IsNormal, normalize_share_blank_id}
use aisphere_kit.Samples.{al, doc, read, user}

abbrev spaced : Grant
spaced = record {
  subject = b' ' ∷ al;
  subject_type = [];
  subject_id = [];
  resource = doc;
  action = read;
  role = [];
  actions = [];
  domain = [];
  granted_by = [];
  expires_at = none;
  metadata = [];
}

abbrev trimmed : Grant
trimmed = record spaced { subject = al }

normalized : normalize_grant spaced ≡ ok trimmed
unfolding normalize_grant tidy checked trim_space trim trim_left trim_right is_space
normalized = refl

normalize_grant-IsNormal_example : IsNormal trimmed
normalize_grant-IsNormal_example = normalize_grant-IsNormal spaced trimmed normalized

abbrev blank_request : ShareRequest
blank_request = record {
  resource = doc;
  subject_type = user;
  subject_id = b' ' ∷ [];
  role = read;
  actions = [];
  domain = [];
  granted_by = [];
  expires_at = none;
  metadata = [];
}

normalize_share_blank_id_example :
    (g : Grant) × (normalize_share blank_request ≡ ok g) × (g.subject ≡ trim_space user)
unfolding trim_space trim trim_left trim_right is_space
normalize_share_blank_id_example =
    normalize_share_blank_id blank_request refl (refl, tt) refl refl refl refl

abbrev open_manager : Manager (Unit {0})
open_manager = record {
  grant = λ ctx g w. (ok tt, w);
  grant_role = λ ctx g w. (ok tt, w);
  share = λ ctx r w. (ok tt, w);
  revoke = λ ctx g w. (ok tt, w);
  check = λ ctx r w. (ok true, w);
  list = λ ctx f w. (ok [], w);
  delete_resource_policies = λ ctx r w. (ok tt, w);
  delete_resource_policies_ex = λ ctx r w. (ok tt, w);
}

abbrev request : CheckRequest
request = record {
  subject = al;
  principal = none;
  resource = doc;
  action = read;
  domain = [];
  extra = [];
}
