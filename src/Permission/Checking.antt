-- ===== src/Permission/Checking.antt =====
-- permission/permission.go: what Require proves.
use aisphere_kit.Base.{
  ◌↔◌, Bool, true, false, Option, some, Result, ok, err, is_empty, ◌≡◌, refl, arith,
}
use aisphere_kit.Context.{Context}
use aisphere_kit.Permission.{
  Manager, CheckRequest, fill_subject, require_filled, require, permission_verdict,
}

module _ {W : Type 0} (ctx : Option (Context W)) (mgr : Manager W) where
  -- The manager allowed this request, whose subject, resource and action are not empty.
  pub record IsAllowed (req : CheckRequest) (w w' : W) : Type 0 where
    pub subject_given : is_empty req.subject ≡ false
    pub resource_given : is_empty req.resource ≡ false
    pub action_given : is_empty req.action ≡ false
    pub allowed : mgr.check ctx req w ≡ (ok true, w')

  verdict-ok :
      (r : Result Bool × W) (w' : W) → permission_verdict r ≡ (ok tt, w') → r ≡ (ok true, w')
  verdict-ok (ok true, v) w' h = ground arith
  verdict-ok (ok false, v) w' h = cc
  verdict-ok (err e, v) w' h = cc

  filled-IsAllowed :
      (req : CheckRequest) (w w' : W) (s r a : Bool)
      → is_empty req.subject ≡ s
      → is_empty req.resource ≡ r
      → is_empty req.action ≡ a
      → require_filled ctx mgr req w ≡ (ok tt, w')
      → IsAllowed req w w'
  unfolding require_filled
  filled-IsAllowed req w w' true r a x y z h = absurd (ground arith)
  filled-IsAllowed req w w' false true a x y z h = absurd (ground arith)
  filled-IsAllowed req w w' false false true x y z h = absurd (ground arith)
  filled-IsAllowed req w w' false false false x y z h = record {
    subject_given = x;
    resource_given = y;
    action_given = z;
    allowed = verdict-ok _ w' (rw (x, y, z) at h);
  }

  IsAllowed-filled :
      (req : CheckRequest) (w w' : W)
      → IsAllowed req w w'
      → require_filled ctx mgr req w ≡ (ok tt, w')
  unfolding require_filled
  IsAllowed-filled req w w' c =
      rw (c.subject_given, c.resource_given, c.action_given, c.allowed) refl

  -- Require succeeds exactly when, with the subject filled in from the principal where the request
  -- names none, the subject, the resource and the action are not empty and the manager allows the
  -- request.
  pub require-iff-IsAllowed :
      (req : CheckRequest) (w w' : W)
      → (require ctx (some mgr) req w ≡ (ok tt, w')) ↔ IsAllowed (fill_subject req) w w'
  unfolding require
  require-iff-IsAllowed req w w' = (
    filled-IsAllowed (fill_subject req) w w' _ _ _ refl refl refl,
    IsAllowed-filled (fill_subject req) w w',
  )
