-- ===== src/Permission/Normalize.antt =====
-- permission/permission.go: what a normalized grant is, and where the tests of a share request fall
-- short of it.
use mathlib.Core.Path.{subst}
use aisphere_kit.Base.{
  ◌↔◌, Sentinel, sentinel, Text, Bool, true, false, ◌&&◌, not, [], ◌∷◌, none, ok, err, is_empty,
  is_none, if◌then◌else◌, trim_space, is_space, ◌==◌, ◌≡◌, refl, arith, All, trim-eq-nil,
}
use aisphere_kit.Base.Strings.Trim.{trim_idem}
use aisphere_kit.Permission.{
  Grant, ShareRequest, tidy, checked, normalize_grant, normalize_share, shared_grant, subject,
  subject_public,
}

pub record IsNormal (g : Grant) : Type 0 where
  pub subject_given : is_empty g.subject ≡ false
  pub subject_trimmed : trim_space g.subject ≡ g.subject
  pub resource_given : is_empty g.resource ≡ false
  pub action_trimmed : trim_space g.action ≡ g.action
  pub role_trimmed : trim_space g.role ≡ g.role
  pub asks : (is_empty g.action && is_empty g.role && is_empty g.actions) ≡ false
  pub timeless : is_none g.expires_at ≡ true

trim_space_idem : (s : Text) → trim_space (trim_space s) ≡ trim_space s
unfolding trim_space
trim_space_idem s = trim_idem is_space s

checked-ok :
    (g h : Grant)
    → checked g ≡ ok h
    → (g ≡ h)
      × (is_empty g.subject ≡ false)
      × (is_empty g.resource ≡ false)
      × ((is_empty g.action && is_empty g.role && is_empty g.actions) ≡ false)
      × (is_none g.expires_at ≡ true)
unfolding checked
checked-ok g h e = ground arith

tidy-trimmed :
    (g : Grant)
    → (trim_space (tidy g).subject ≡ (tidy g).subject)
      × (trim_space (tidy g).action ≡ (tidy g).action)
      × (trim_space (tidy g).role ≡ (tidy g).role)
unfolding tidy
tidy-trimmed g = (trim_space_idem _, trim_space_idem _, trim_space_idem _)

-- A grant that NormalizeGrant accepts is normal: its subject is not empty, its subject, action and
-- role have no space around them, its resource is not empty, it asks for an action, a role or a list
-- of actions, and it does not expire.
pub normalize_grant-IsNormal : (g h : Grant) → normalize_grant g ≡ ok h → IsNormal h
unfolding normalize_grant
normalize_grant-IsNormal g h e =
    let (same, subject_given, resource_given, asks, timeless) = checked-ok (tidy g) h e in
    let (st, at, rt) = tidy-trimmed g in
    subst IsNormal same (record {
      subject_given = subject_given;
      subject_trimmed = st;
      resource_given = resource_given;
      action_trimmed = at;
      role_trimmed = rt;
      asks = asks;
      timeless = timeless;
    })

tidy_of_IsNormal : (g : Grant) → IsNormal g → tidy g ≡ g
unfolding tidy
tidy_of_IsNormal g n =
    λ i. record g { subject = subject_kept i; action = n.action_trimmed i; role = n.role_trimmed i }
  where
    subject_kept :
        trim_space (
          if is_empty g.subject && not (is_empty g.subject_type)
          then subject g.subject_type g.subject_id
          else g.subject)
        ≡ g.subject
    subject_kept = rw n.subject_given n.subject_trimmed

checked_of_IsNormal : (g : Grant) → IsNormal g → checked g ≡ ok g
unfolding checked
checked_of_IsNormal g n = rw (n.subject_given, n.resource_given, n.asks, n.timeless) refl

-- Normalizing a normal grant changes nothing.
normalize_grant_of_IsNormal : (g : Grant) → IsNormal g → normalize_grant g ≡ ok g
unfolding normalize_grant
normalize_grant_of_IsNormal g n = rw (tidy_of_IsNormal g n) (checked_of_IsNormal g n)

-- A grant is accepted unchanged exactly when it is normal; so normalizing a second time, as Grant
-- and Share do by way of GrantRole, changes nothing.
pub normalize_grant-fixed_iff : (g : Grant) → (normalize_grant g ≡ ok g) ↔ IsNormal g
normalize_grant-fixed_iff g = (normalize_grant-IsNormal g g, normalize_grant_of_IsNormal g)

given_of_trimmed : (s : Text) → is_empty (trim_space s) ≡ false → is_empty s ≡ false
unfolding trim_space
given_of_trimmed [] h = h
given_of_trimmed (c ∷ s) h = refl

and_false : (b : Bool) → (b && false) ≡ false
and_false true = refl
and_false false = refl

-- A share request whose subject id is empty is refused, unless the subject is the public.
pub normalize_share_empty_id :
    (req : ShareRequest)
    → is_empty req.subject_id ≡ true
    → (req.subject_type == subject_public) ≡ false
    → normalize_share req ≡ err (sentinel Sentinel.empty_subject)
unfolding normalize_share
normalize_share_empty_id req i p = ground arith

module _ (req : ShareRequest) (given : is_empty req.subject_id ≡ false)
    (blank : All (λ c. is_space c ≡ true) req.subject_id)
    (type : is_empty (trim_space req.subject_type) ≡ false)
    (resource : is_empty req.resource ≡ false) (role : is_empty (trim_space req.role) ≡ false)
    (timeless : req.expires_at ≡ none) where
  id_trimmed : trim_space req.subject_id ≡ []
  unfolding trim_space
  id_trimmed = trim-eq-nil is_space req.subject_id blank

  shared_subject : subject req.subject_type req.subject_id ≡ trim_space req.subject_type
  unfolding subject
  shared_subject = rw type (rw id_trimmed refl)

  tidy-subject : (tidy (shared_grant req)).subject ≡ trim_space req.subject_type
  unfolding tidy shared_grant
  tidy-subject = rw shared_subject (rw type (trim_space_idem req.subject_type))

  tidy-checked : checked (tidy (shared_grant req)) ≡ ok (tidy (shared_grant req))
  unfolding checked
  tidy-checked = rw tidy-subject (
      rw type
        (unfold tidy shared_grant in rw (resource, role, timeless) (unfold trim_space in refl)))

  -- A share request whose subject id is made of one or more spaces passes that test: with a subject
  -- type and a role that are not blank, a resource, and no expiry, it becomes a grant to the bare
  -- subject type.
  pub normalize_share_blank_id :
      (g : Grant) × (normalize_share req ≡ ok g) × (g.subject ≡ trim_space req.subject_type)
  unfolding normalize_share normalize_grant
  normalize_share_blank_id = (
    tidy (shared_grant req),
    rw (given_of_trimmed _ type, given, resource, given_of_trimmed _ role)
        (rw and_false tidy-checked),
    tidy-subject,
  )

-- What NormalizeShare accepts is what NormalizeGrant makes of the grant that is shared, and is normal.
pub normalize_share-IsNormal :
    (req : ShareRequest) (g : Grant) → normalize_share req ≡ ok g → IsNormal g
unfolding normalize_share
normalize_share-IsNormal req g h = normalize_grant-IsNormal (shared_grant req) g (ground arith)
