-- ===== src/Principal/Defs.antt =====
-- principal/principal.go: the Principal and its methods.
use aisphere_kit.Base.{
  Text, Any, codes, Bool, not, ◌&&◌, List, [], ◌∷◌, ◌++◌, is_empty, ◌==◌, if◌then◌else◌,
}

-- SubjectUser, SubjectAnon
abbrev pub subject_user : Text
subject_user = codes "user"

abbrev pub subject_anon : Text
subject_anon = codes "anonymous"

pub record Principal : Type 0 where
  pub subject_type : Text
  pub subject_id : Text
  pub name : Text
  pub display_name : Text
  pub email : Text
  pub avatar : Text
  pub org_id : Text
  pub project_id : Text
  pub roles : List Text
  pub groups : List Text
  pub token : Text
  pub token_id : Text
  pub claims : List (Text × Any)
  pub attributes : List (Text × Text)

-- The zero value of the struct, which a composite literal starts from.
abbrev pub zero_principal : Principal
zero_principal = record {
  subject_type = [];
  subject_id = [];
  name = [];
  display_name = [];
  email = [];
  avatar = [];
  org_id = [];
  project_id = [];
  roles = [];
  groups = [];
  token = [];
  token_id = [];
  claims = [];
  attributes = [];
}

unfoldable pub is_zero : Principal → Bool
is_zero p = is_empty p.subject_id && is_empty p.subject_type

unfoldable pub is_authenticated : Principal → Bool
is_authenticated p =
    not (is_empty p.subject_id)
    && not (is_empty p.subject_type)
    && not (p.subject_type == subject_anon)

unfoldable pub subject : Principal → Text
subject p =
    if is_empty p.subject_type
    then p.subject_id
    else if is_empty p.subject_id
    then p.subject_type
    else p.subject_type ++ (b':' ∷ p.subject_id)

unfoldable pub anonymous : Principal
anonymous = record zero_principal { subject_type = subject_anon; subject_id = codes "anonymous" }
