-- ===== src/Authz/Laws.antt =====
-- authz/authz.go: what a successful requirement proves, and what an unsuccessful one means.
use aisphere_kit.Base.{
  Text, Bool, ◌||◌, if◌then◌else◌, ◌≡◌, refl, Option, none, some, ok, err, Result, arith, true,
  false, [], is_empty, and_then,
}
use aisphere_kit.Context.{Context}
use aisphere_kit.Principal.Defs.{Principal, is_zero}
use aisphere_kit.Authz.{Authorizer, Request, require_known, require_principal, verdict}

-- The request that the requirement sends.
abbrev pub request_of : Principal → Text → Text → Request
request_of p resource action = record {
  principal = some p;
  resource = resource;
  action = action;
  domain = [];
  extra = [];
}

module _ {W : Type 0} (ctx : Option (Context W)) where
  -- What is known of a call of the authorizer that let the requirement pass.
  pub record IsAllowed (a : Option (Authorizer W)) (p : Principal) (resource action : Text)
      (w w' : W) : Type 0 where
    pub authorizer : Authorizer W
    pub configured : a ≡ some authorizer
    pub subject_known : is_zero p ≡ false
    pub resource_given : is_empty resource ≡ false
    pub action_given : is_empty action ≡ false
    pub allowed : authorizer.authorize ctx (request_of p resource action) w ≡ (ok true, w')

  verdict-ok :
      (p : Principal) (resource action : Text) (r : Result Bool × W) (w' : W)
      → and_then (verdict p resource action) r ≡ (ok tt, w')
      → r ≡ (ok true, w')
  verdict-ok p resource action (ok true, v) w' h = ground arith
  verdict-ok p resource action (ok false, v) w' h = cc
  verdict-ok p resource action (err e, v) w' h = cc

  require_known-IsAllowed :
      (a : Authorizer W) (p : Principal) (resource action : Text) (w w' : W) (zero missing : Bool)
      → is_zero p ≡ zero
      → (is_empty resource || is_empty action) ≡ missing
      → require_known ctx (some a) p resource action w ≡ (ok tt, w')
      → IsAllowed (some a) p resource action w w'
  unfolding require_known
  require_known-IsAllowed a p resource action w w' true missing z m h = absurd (ground arith)
  require_known-IsAllowed a p resource action w w' false true z m h = absurd (ground arith)
  require_known-IsAllowed a p resource action w w' false false z m h = record {
    authorizer = a;
    configured = refl;
    subject_known = z;
    resource_given = ground arith;
    action_given = ground arith;
    allowed = verdict-ok p resource action _ w' (rw (z, m, if◌then◌else◌) at h);
  }

  pub require_principal-IsAllowed :
      (a : Option (Authorizer W)) (p : Option Principal) (resource action : Text) (w w' : W)
      → require_principal ctx a p resource action w ≡ (ok tt, w')
      → (q : Principal) × (p ≡ some q) × IsAllowed a q resource action w w'
  unfolding require_principal
  require_principal-IsAllowed a none resource action w w' h = absurd (ground arith)
  require_principal-IsAllowed none (some p) resource action w w' h = absurd (ground arith)
  require_principal-IsAllowed (some a) (some p) resource action w w' h =
      (p, refl, require_known-IsAllowed a p resource action w w' _ _ refl refl h)

  pub IsAllowed-require_principal :
      (a : Option (Authorizer W)) (p : Principal) (resource action : Text) (w w' : W)
      → IsAllowed a p resource action w w'
      → require_principal ctx a (some p) resource action w ≡ (ok tt, w')
  unfolding require_principal
  IsAllowed-require_principal a p resource action w w' c =
      rw c.configured (rw (c.subject_known, c.resource_given, c.action_given, c.allowed) refl)
