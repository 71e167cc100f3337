-- ===== src/Casdoor/Identity/Decisions.antt =====
-- casdoor/adapter.go and casdoor/policy.go: Authorize beside Check.
use aisphere_kit.Base.{
  Any, str, List, ◌∷◌, ◌++◌, Text, Bool, true, false, [], Option, none, some, Result, ok, err, ◌≡◌,
  refl, arith, is_empty, if◌then◌else◌, Error, plain, codes, trim_space, trim, trim_left,
  trim_right, Bool-cases, inl, inr, ap, ◌∙◌, sym,
}
use mathlib.Core.Path.{subst}
use aisphere_kit.Context.{Context}
use aisphere_kit.Principal.Defs.{Principal, subject}
use aisphere_kit.Authz.{Request}
use aisphere_kit.Permission.{CheckRequest, subject_from_principal}
use aisphere_kit.Casdoor.Settings.{enforce_selectors}
use aisphere_kit.Casdoor.Calls.{Adapter, remote}
use aisphere_kit.Casdoor.Calls.Laws.{remote-ok}
use aisphere_kit.Casdoor.Policy.{casbin_request, check, check_subject}
use aisphere_kit.Casdoor.Identity.{
  casbin_req, authorize, authorize_known, authorize_by, no_selector,
}

-- The request of Check with the same question as a request of Authorize.
abbrev pub check_of : Principal → Request → CheckRequest
check_of p req = record {
  subject = [];
  principal = some p;
  resource = req.resource;
  action = req.action;
  domain = req.domain;
  extra = req.extra;
}

-- A question to the enforcer: the subject, the domain if there is one, the resource, the action, and
-- whatever else there is.
abbrev pub domain_part : Text → List Any
domain_part [] = []
domain_part (c ∷ s) = str (c ∷ s) ∷ []

abbrev pub question : Principal → Request → List Any
question p req =
    (str (subject p) ∷ domain_part req.domain) ++ (str req.resource ∷ str req.action ∷ req.extra)

-- Both methods build that request.
casbin_request-question :
    (s d o a : Text) (x : List Any)
    → casbin_request s d o a x ≡ (str s ∷ domain_part d) ++ (str o ∷ str a ∷ x)
unfolding casbin_request
casbin_request-question s [] o a x = refl
casbin_request-question s (c ∷ d) o a x = refl

casbin_req-question :
    (s d o a : Text) (x : List Any)
    → casbin_req s d o a x ≡ (str s ∷ domain_part d) ++ (str o ∷ str a ∷ x)
unfolding casbin_req
casbin_req-question s [] o a x = refl
casbin_req-question s (c ∷ d) o a x = refl

-- The error of an adapter without a selector.
abbrev pub unconfigured : Error
unconfigured =
    plain (codes "one of casdoor permission_id/model_id/resource_id/enforcer_id/owner is required")

module _ {W : Type 0} (a : Adapter W) (ctx : Option (Context W)) where
  -- The call of the server by which Authorize answers `b`.
  pub record Asked (p : Principal) (req : Request) (b : Bool) (w' : W) : Type 0 where
    pub selected : no_selector (enforce_selectors a.cfg) ≡ false
    pub before : W
    pub answered : a.client.enforce (enforce_selectors a.cfg) (question p req) before ≡ (ok b, w')

  authorize_known-Asked :
      (p : Principal) (req : Request) (b : Bool) (w w' : W) (z : Bool)
      → no_selector (enforce_selectors a.cfg) ≡ z
      → authorize_known a ctx p req w ≡ (ok b, w')
      → Asked p req b w'
  unfolding authorize_known
  authorize_known-Asked p req b w w' true z h = absurd (ground arith)
  authorize_known-Asked p req b w w' false z h =
      let (v, answered) = remote-ok a ctx _ w w' b (rw (z, if◌then◌else◌) at h) in
      record {
        selected = z;
        before = v;
        answered =
            subst (λ q. a.client.enforce (enforce_selectors a.cfg) q v ≡ (ok b, w'))
              (casbin_req-question (subject p) req.domain req.resource req.action req.extra)
              answered;
      }

  authorize_by-Asked :
      (o : Option Principal) (req : Request) (b : Bool) (w w' : W)
      → authorize_by a ctx o req w ≡ (ok b, w')
      → (p : Principal) × (o ≡ some p) × Asked p req b w'
  authorize_by-Asked none req b w w' h = absurd (ground arith)
  authorize_by-Asked (some p) req b w w' h = (p, refl, authorize_known-Asked p req b w w' _ refl h)

  check-remote :
      (p : Principal) (req : Request) (w : W)
      → is_empty (subject p) ≡ false
      → is_empty req.resource ≡ false
      → is_empty req.action ≡ false
      → check a ctx (check_of p req) w
        ≡ remote a ctx (a.client.enforce (enforce_selectors a.cfg) (question p req)) w
  unfolding check check_subject subject_from_principal trim_space trim trim_left trim_right
  check-remote p req w s r c =
      rw (s, r, c, casbin_request-question (subject p) req.domain req.resource req.action req.extra)
        refl

  authorize_if :
      (p : Principal) (req : Request) (w : W)
      → req.principal ≡ some p
      → authorize a ctx req w ≡ (
          if no_selector (enforce_selectors a.cfg)
          then (err unconfigured, w)
          else remote a ctx (a.client.enforce (enforce_selectors a.cfg) (question p req)) w)
  unfolding authorize authorize_known
  authorize_if p req w named =
      rw (named, casbin_req-question (subject p) req.domain req.resource req.action req.extra)
        (elim (Bool-cases (no_selector (enforce_selectors a.cfg))) [
          | inl e ↦ rw e refl
          | inr e ↦ rw e refl
        ])

  -- Authorize answers without an error only when the request has a principal, a selector is configured,
  -- and the server has given this answer to the question of whether that principal's subject may do
  -- this; a denial and a permission alike.
  pub authorize-Asked :
      (req : Request) (b : Bool) (w w' : W)
      → authorize a ctx req w ≡ (ok b, w')
      → (p : Principal) × (req.principal ≡ some p) × Asked p req b w'
  unfolding authorize
  authorize-Asked req b w w' h = authorize_by-Asked req.principal req b w w' h

  -- For a principal with a subject, and a resource and an action that are not empty, Authorize answers as
  -- Check does when a selector is configured: both put the same question to the server, of the subject,
  -- the domain if it is given, the resource, the action and the extras, in this order. When no selector
  -- is configured, Authorize fails and leaves the world as it is, while Check asks all the same.
  pub authorize-check :
      (p : Principal) (req : Request) (w : W)
      → req.principal ≡ some p
      → is_empty (subject p) ≡ false
      → is_empty req.resource ≡ false
      → is_empty req.action ≡ false
      → (authorize a ctx req w ≡ (
          if no_selector (enforce_selectors a.cfg)
          then (err unconfigured, w)
          else check a ctx (check_of p req) w))
        × (check a ctx (check_of p req) w
            ≡ remote a ctx (a.client.enforce (enforce_selectors a.cfg) (question p req)) w)
  authorize-check p req w named subject_given resource_given action_given =
      let asked = check-remote p req w subject_given resource_given action_given in
      (
        authorize_if p req w named
            ∙ ap
                (λ (x : Result Bool × W).
                  if no_selector (enforce_selectors a.cfg) then (err unconfigured, w) else x)
                (sym asked),
        asked,
      )
