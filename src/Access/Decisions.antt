-- ===== src/Access/Decisions.antt =====
-- access/access.go: what Require decides, and how it agrees with Can.
use aisphere_kit.Base.{
  sym, ◌∙◌, ◌⊎◌, Text, Any, Bool, true, false, ◌||◌, List, [], Option, none, some, Result, ok, err,
  pure, and_then, Error, is_empty, ◌≡◌, refl, ◌↔◌, arith, is, Sentinel, Option-cases, inl, inr,
  Bool-cases,
}
use mathlib.Core.Path.{subst}
use aisphere_kit.Context.{Context}
use aisphere_kit.Principal.Defs.{Principal, is_zero}
use aisphere_kit.Principal.Lookup.{from_context, require_from_context}
use aisphere_kit.Authz.{Authorizer, require_principal, verdict, denial}
use aisphere_kit.Authz.Laws.{IsAllowed, require_principal-IsAllowed, IsAllowed-require_principal}
use aisphere_kit.Audit.{Recorder}
use aisphere_kit.Access.{Check, Guard, authz_of, can_known, can, require_known, require}

pub require_from_context-ok :
    {W : Type 0} (ctx : Option (Context W)) (p : Principal)
    → require_from_context ctx ≡ ok p
    → (from_context ctx ≡ some p) × (is_zero p ≡ false)
unfolding require_from_context
require_from_context-ok ctx p h = elim (Option-cases (from_context ctx)) [
  | inl e ↦ absurd (ground arith)
  | inr (q, e) ↦ elim (Bool-cases (is_zero q)) [
    | inl z ↦ absurd (ground arith)
    | inr z ↦ ground arith
  ]
]

pub require_from_context-of :
    {W : Type 0} (ctx : Option (Context W)) (p : Principal)
    → from_context ctx ≡ some p
    → is_zero p ≡ false
    → require_from_context ctx ≡ ok p
unfolding require_from_context
require_from_context-of ctx p e z = rw (e, require_from_context) (rw z refl)

result_cases : {A : Type 0} (r : Result A) → ((a : A) × (r ≡ ok a)) ⊎ ((e : Error) × (r ≡ err e))
result_cases (ok a) = inl (a, refl)
result_cases (err e) = inr (e, refl)

module _ {W : Type 0} (g : Option (Guard W)) (ctx : Option (Context W)) where
  -- The principal of the context is known, and the guard's authorizer allows it the action.
  pub record IsPermitted (check : Check) (p : Principal) (w w' : W) : Type 0 where
    pub present : from_context ctx ≡ some p
    pub allowed : IsAllowed ctx (authz_of g) p check.resource check.action w w'

  -- For a principal that is not zero, the guard's own tests repeat those of RequirePrincipal.
  require_known_lem :
      (a : Option (Authorizer W)) (p : Principal) (check : Check) (w : W) (missing : Bool)
      → is_zero p ≡ false
      → (is_empty check.resource || is_empty check.action) ≡ missing
      → require_known ctx a p check w
        ≡ and_then (λ _. pure p) (require_principal ctx a (some p) check.resource check.action w)
  unfolding require_known require_principal
  require_known_lem none p check w m z e = rw z refl
  require_known_lem (some a) p check w true z e = rw (z, e) refl
  require_known_lem (some a) p check w false z e = rw (z, e) refl

  and_then-ok :
      (p q : Principal) (r : Result (Unit {0}) × W) (w' : W)
      → and_then (λ _. pure p) r ≡ (ok q, w')
      → (p ≡ q) × (r ≡ (ok tt, w'))
  and_then-ok p q (ok tt, v) w' h = (ground arith, ground arith)
  and_then-ok p q (err e, v) w' h = absurd (ground arith)

  require-IsPermitted :
      (check : Check) (p : Principal) (w w' : W)
      → require g ctx check w ≡ (ok p, w')
      → IsPermitted check p w w'
  unfolding require
  require-IsPermitted check p w w' h = elim (result_cases (require_from_context ctx)) [
    | inr (e, q) ↦ absurd (ground arith)
    | inl (q, found) ↦
        let (present, known) = require_from_context-ok ctx q found in
        let h' : require_known ctx (authz_of g) q check w ≡ (ok p, w') = rw (found, require) at h in
        let (same, passed) =
          and_then-ok q p _ w' (sym (require_known_lem (authz_of g) q check w _ known refl) ∙ h') in
        let (q', same', allowed) =
          require_principal-IsAllowed ctx (authz_of g) (some q) check.resource check.action w w'
            passed in
        let chosen : q' ≡ p = cc in
        record {
          present = rw (← same) present;
          allowed =
              subst (λ x. IsAllowed ctx (authz_of g) x check.resource check.action w w') chosen
                allowed;
        }
  ]

  IsPermitted-require :
      (check : Check) (p : Principal) (w w' : W)
      → IsPermitted check p w w'
      → require g ctx check w ≡ (ok p, w')
  unfolding require
  IsPermitted-require check p w w' c =
      rw (require_from_context-of ctx p c.present c.allowed.subject_known, require)
        (rw (require_known_lem (authz_of g) p check w _ c.allowed.subject_known refl) (
          rw
            (IsAllowed-require_principal ctx (authz_of g) p check.resource check.action w w'
              c.allowed)
            refl))

  -- Require returns a principal exactly when the context carries that principal, it is not zero, the
  -- guard has an authorizer, the resource and the action are given, and the authorizer answered
  -- `true` to the request of that principal, resource and action with no domain and no extras. In
  -- every other case it fails: an absent guard, authorizer or principal denies.
  pub require-iff-IsPermitted :
      (check : Check) (p : Principal) (w w' : W)
      → (require g ctx check w ≡ (ok p, w')) ↔ IsPermitted check p w w'
  require-iff-IsPermitted check p w w' =
      (require-IsPermitted check p w w', IsPermitted-require check p w w')

-- A check with no domain and no extras.
abbrev pub plain_check : Text → Text → Text → Check
plain_check resource action reason = record {
  resource = resource;
  action = action;
  domain = [];
  reason = reason;
  extra = [];
}

-- How a decision of Can and an outcome of Require go together: allowed with a principal, denied
-- with an error that wraps ErrDenied, and the same error in the same world.
abbrev pub Agree : {W : Type 0} → Result Bool × W → Result Principal × W → Type 0
Agree {W} (ok true, w) r = (p : Principal) × (r ≡ (ok p, w))
Agree {W} (ok false, w) r = (e : Error) × (r ≡ (err e, w)) × (is e Sentinel.denied ≡ true)
Agree {W} (err e, w) r = r ≡ (err e, w)

module _ {W : Type 0} where
  Agree-verdict :
      (p : Principal) (resource action : Text) (r : Result Bool × W)
      → Agree r (and_then (λ _. pure p) (and_then (verdict p resource action) r))
  Agree-verdict p resource action (ok true, w) = (p, refl)
  Agree-verdict p resource action (ok false, w) =
      (denial p resource action, refl, unfold denial is in refl)
  Agree-verdict p resource action (err e, w) = refl

  Agree-known :
      (ctx : Option (Context W)) (a : Option (Authorizer W)) (p : Principal)
      (resource action reason : Text) (missing : Bool) (w : W)
      → is_zero p ≡ false
      → (is_empty resource || is_empty action) ≡ missing
      → Agree
          (can_known ctx a p (plain_check resource action reason) w)
          (require_known ctx a p (plain_check resource action reason) w)
  unfolding can_known require_known require_principal
  Agree-known ctx none p resource action reason missing w z e = refl
  Agree-known ctx (some a) p resource action reason true w z e = rw e refl
  Agree-known ctx (some a) p resource action reason false w z e =
      rw (e, z) (Agree-verdict p resource action _)

  -- For a check with no domain and no extras, Can and Require agree, whatever the guard, the context,
  -- the authorizer and the check are.
  pub Agree-can-require :
      (g : Option (Guard W)) (ctx : Option (Context W)) (resource action reason : Text) (w : W)
      → Agree
          (can g ctx (plain_check resource action reason) w)
          (require g ctx (plain_check resource action reason) w)
  unfolding can require
  Agree-can-require g ctx resource action reason w =
      elim (result_cases (require_from_context ctx)) [
        | inr (e, failing) ↦ rw (failing, can, require) refl
        | inl (p, found) ↦
            rw (found, can, require)
              (Agree-known ctx (authz_of g) p resource action reason _ w
                (require_from_context-ok ctx p found).1 refl)
      ]

  require_known-domain :
      (ctx : Option (Context W)) (a : Option (Authorizer W)) (p : Principal) (check : Check)
      (domain : Text) (extra : List Any) (w : W)
      → require_known ctx a p (record check { domain = domain; extra = extra }) w
        ≡ require_known ctx a p check w
  unfolding require_known
  require_known-domain ctx none p check domain extra w = refl
  require_known-domain ctx (some a) p check domain extra w = refl

  -- Require does not look at the domain and the extras of the check.
  pub require-domain :
      (g : Option (Guard W)) (ctx : Option (Context W)) (check : Check) (domain : Text)
      (extra : List Any) (w : W)
      → require g ctx (record check { domain = domain; extra = extra }) w ≡ require g ctx check w
  unfolding require
  require-domain g ctx check domain extra w = elim (result_cases (require_from_context ctx)) [
    | inr (e, failing) ↦ rw (failing, require) refl
    | inl (p, found) ↦
        rw (found, require) (require_known-domain ctx (authz_of g) p check domain extra w)
  ]

-- An authorizer that allows everything outside of any domain, and nothing within one.
abbrev pub global_only : {W : Type 0} → Authorizer W
global_only = record { authorize = λ ctx req w. (ok (is_empty req.domain), w) }

abbrev pub global_guard : {W : Type 0} → Option (Recorder W) → Text → Option (Guard W)
global_guard audit component =
    some (record { authz = some global_only; audit = audit; component = component })

module _ {W : Type 0} (ctx : Option (Context W)) (p : Principal) (check : Check) (w : W) where
  -- For every check with a resource, an action and a domain, made for a principal that is not zero:
  -- under an authorizer that allows nothing within a domain, Can denies and Require permits.
  pub require_despite_domain :
      from_context ctx ≡ some p
      → is_zero p ≡ false
      → is_empty check.resource ≡ false
      → is_empty check.action ≡ false
      → is_empty check.domain ≡ false
      → (audit : Option (Recorder W)) (component : Text)
      → (can (global_guard audit component) ctx check w ≡ (ok false, w))
        × (require (global_guard audit component) ctx check w ≡ (ok p, w))
  unfolding can
  require_despite_domain present known resource action domain audit component = (
    rw (require_from_context-of ctx p present known, can)
        (unfold can_known in rw (resource, action) (rw domain refl)),
    IsPermitted-require (global_guard audit component) ctx check p w w (record {
      present = present;
      allowed = record {
        authorizer = global_only;
        configured = refl;
        subject_known = known;
        resource_given = resource;
        action_given = action;
        allowed = refl;
      };
    }),
  )
