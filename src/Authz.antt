-- ===== src/Authz.antt =====
-- authz/authz.go: the Authorizer interface, Require and RequirePrincipal.
use aisphere_kit.Base.{
  Text, Any, codes, Bool, true, false, ◌||◌, List, [], ◌∷◌, ◌++◌, Option, none, some, Io, Result,
  ok, err, fail, pure, ◌>>=◌, and_then, Error, Sentinel, sentinel, wrapped, is_empty, if◌then◌else◌,
  ℕ,
}
use aisphere_kit.Context.{Context}
use aisphere_kit.Principal.Defs.{Principal, is_zero, subject}
use aisphere_kit.Principal.Lookup.{require_from_context}
pub mod Laws

-- `principal = none` is the nil pointer.
pub record Request : Type 0 where
  pub principal : Option Principal
  pub resource : Text
  pub action : Text
  pub domain : Text
  pub extra : List Any

pub record Authorizer (W : Type 0) : Type 0 where
  pub authorize : Option (Context W) → Request → Io W Bool

-- fmt.Errorf("%w: %s cannot %s %s", ErrDenied, p.Subject(), action, resource)
unfoldable pub denial : Principal → Text → Text → Error
denial p resource action =
    wrapped [] (sentinel Sentinel.denied)
      (codes ": " ++ (subject p ++ (codes " cannot " ++ (action ++ (b' ' ∷ resource)))))

-- `if !ok { return … }` after the call of the authorizer
abbrev pub verdict : {W : Type 0} → Principal → Text → Text → Bool → Io W (Unit {0})
verdict p resource action true = pure tt
verdict p resource action false = fail (denial p resource action)

module _ {W : Type 0} where
  -- The part of RequirePrincipal behind the test that `p` is not the nil pointer.
  unfoldable pub require_known :
      Option (Context W) → Option (Authorizer W) → Principal → Text → Text → Io W (Unit {0})
  require_known ctx none p resource action =
      if is_zero p
      then fail (sentinel Sentinel.missing_principal)
      else fail (sentinel Sentinel.not_configured)
  require_known ctx (some a) p resource action =
      if is_zero p
      then fail (sentinel Sentinel.missing_principal)
      else if is_empty resource || is_empty action
      then fail (sentinel Sentinel.empty_authorization)
      else a.authorize ctx (record {
        principal = some p;
        resource = resource;
        action = action;
        domain = [];
        extra = [];
      })
        >>= verdict p resource action

  unfoldable pub require_principal :
      Option (Context W) → Option (Authorizer W) → Option Principal → Text → Text → Io W (Unit {0})
  unfolding require_known
  require_principal ctx a none resource action = fail (sentinel Sentinel.missing_principal)
  require_principal ctx a (some p) resource action = require_known ctx a p resource action

  unfoldable pub require :
      Option (Context W) → Option (Authorizer W) → Text → Text → Io W (Unit {0})
  unfolding require_principal
  require ctx a resource action w = elim (require_from_context ctx) [
    | err e ↦ (err e, w)
    | ok p ↦ require_principal ctx a (some p) resource action w
  ]
