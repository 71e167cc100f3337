-- ===== src/Casdoor/Policy/Deletion.antt =====
-- casdoor/policy.go: DeleteResourcePolicies leaves no policy of the resource.
use mathlib.Core.Path.{subst}
use aisphere_kit.Base.{
  and_then-ok, Text, true, false, List, [], ◌∷◌, Option, Result, ok, ◌≡◌, refl, inl, inr, ap, ◌∙◌,
  sym, arith, Bool-cases, is_empty, eq_refl, eq_sound, ◌==◌,
}
use aisphere_kit.Context.{Context}
use aisphere_kit.Permission.{Grant, ResourceName}
use aisphere_kit.Casdoor.Client.{CasbinRule}
use aisphere_kit.Casdoor.Calls.{Adapter}
use aisphere_kit.Casdoor.Policy.{
  policy_target, Target, rule_of, grant_of, selects, list, only_resource, remove_policy,
  remove_grants, delete_resource_policies, delete_resource_policies_ex, p_type, passes,
}
use aisphere_kit.Casdoor.Policy.Store.{
  PolicyStore, Undisturbed, remove_policy-holds, remove_policy_keeps, remove_policy_frame,
}
use aisphere_kit.Casdoor.Policy.Effects.{seq-ok, seq_inv}
use aisphere_kit.Casdoor.Policy.Listing.{IsWanted-selects, selects-IsWanted, Returned, list-selects}

-- The rule that `remove_grants` removes for a grant.
abbrev pub rule_for : Grant → CasbinRule
rule_for g = rule_of g.subject g.resource g.action

passes_refl : (x : Text) → passes x x ≡ true
passes_refl [] = refl
passes_refl (c ∷ x) = eq_refl (c ∷ x)

selected :
    (subject : Text) (res : ResourceName) (action : Text)
    → selects (only_resource res) (rule_of subject res action) ≡ true
selected subject res action = rw (eq_refl p_type, passes_refl res) refl

module _ {W : Type 0} (a : Adapter W) (store : PolicyStore a.client) (ctx : Option (Context W))
    (undisturbed : Undisturbed store ctx) (t : Target)
    (configured : policy_target a.cfg ≡ ok t) where
  open store use {holds}

  remove_grants_keeps :
      (gs : List Grant) (n : Text) (s : CasbinRule) (w : W)
      → holds w n s ≡ false
      → holds (remove_grants a ctx gs w).1 n s ≡ false
  unfolding remove_grants
  remove_grants_keeps [] n s w h = h
  remove_grants_keeps (g ∷ gs) n s w h =
      seq_inv (remove_grants a ctx gs) (λ v. holds v n s ≡ false)
        (remove_policy a ctx g.subject g.resource g.action w)
        (remove_policy_keeps a store ctx undisturbed t configured g.subject g.resource g.action n s
          w h)
        (remove_grants_keeps gs n s)

  remove_grants-holds :
      (gs : List Grant) (w w' : W)
      → remove_grants a ctx gs w ≡ (ok tt, w')
      → (g : Grant) → Returned g gs
      → holds w' t.enforcer.name (rule_for g) ≡ false
  unfolding remove_grants
  remove_grants-holds [] w w' h g m = absurd m
  remove_grants-holds (x ∷ gs) w w' h g (inr m) =
      let (done, rest) =
        seq-ok (remove_grants a ctx gs) (remove_policy a ctx x.subject x.resource x.action w) tt w'
          h in
      remove_grants-holds gs _ w' rest g m
  remove_grants-holds (x ∷ gs) w w' h g (inl e) =
      let (done, rest) =
        seq-ok (remove_grants a ctx gs) (remove_policy a ctx x.subject x.resource x.action w) tt w'
          h in
      let v = (remove_policy a ctx x.subject x.resource x.action w).1 in
      let kept = remove_grants_keeps gs t.enforcer.name (rule_for x) v (
        remove_policy-holds a store ctx undisturbed t configured x.subject x.resource x.action w v
          done) in
      subst (λ y. holds w' t.enforcer.name (rule_for y) ≡ false) e
        (subst (λ y. holds y t.enforcer.name (rule_for x) ≡ false)
          (ap (λ (r : Result (Unit {0}) × W). r.1) rest) kept)

  -- The grants of a list do not name the rule.
  abbrev IsOther : Text → CasbinRule → List Grant → Type 0
  IsOther n s gs = (g : Grant) → Returned g gs → ¬ ((n ≡ t.enforcer.name) × (s ≡ rule_for g))

  remove_grants_frame :
      (gs : List Grant) (n : Text) (s : CasbinRule) (w : W)
      → IsOther n s gs
      → holds (remove_grants a ctx gs w).1 n s ≡ holds w n s
  unfolding remove_grants
  remove_grants_frame [] n s w h = refl
  remove_grants_frame (g ∷ gs) n s w h =
      seq_inv (remove_grants a ctx gs) (λ v. holds v n s ≡ holds w n s)
        (remove_policy a ctx g.subject g.resource g.action w)
        (remove_policy_frame a store ctx undisturbed t configured g.subject g.resource g.action n s
          (h g (inl refl)) w)
        (λ v e. remove_grants_frame gs n s v (λ x m. h x (inr m)) ∙ e)

  selected_resource :
      (res : ResourceName) (r : CasbinRule)
      → is_empty res ≡ false
      → selects (only_resource res) r ≡ true
      → r.v1 ≡ res
  selected_resource [] r given h = absurd (ground arith)
  selected_resource (c ∷ res) r given h =
      let same : ((c ∷ res) == r.v1) ≡ true = ground arith in sym (eq_sound _ _ same)

  remove_found :
      (res : ResourceName) (gs : List Grant) (v w w' : W)
      → list a ctx (only_resource res) w ≡ (ok gs, v)
      → remove_grants a ctx gs v ≡ (ok tt, w')
      → (subject action : Text) → holds w' t.enforcer.name (rule_of subject res action) ≡ false
  remove_found res gs v w w' found done subject action =
      let r = rule_of subject res action in
      elim (Bool-cases (holds v t.enforcer.name r)) [
        | inl e ↦ remove_grants-holds gs v w' done (grant_of r) (
            ((list-selects a store ctx undisturbed t configured (only_resource res) w v gs found).0
                (grant_of r)).1
              (record {
                rule = r;
                held = e;
                wanted = IsWanted-selects (only_resource res) r (selected subject res action);
                made = refl;
              }))
        | inr e ↦
            subst (λ x. holds x t.enforcer.name r ≡ false)
              (ap (λ (x : Result (Unit {0}) × W). x.1) done)
              (remove_grants_keeps gs t.enforcer.name r v e)
      ]

  others_kept :
      (res : ResourceName) (gs : List Grant) (v w w' : W)
      → is_empty res ≡ false
      → list a ctx (only_resource res) w ≡ (ok gs, v)
      → remove_grants a ctx gs v ≡ (ok tt, w')
      → (n : Text) (s : CasbinRule) → ¬ ((n ≡ t.enforcer.name) × (s.v1 ≡ res))
      → holds w' n s ≡ holds w n s
  others_kept res gs v w w' given found done n s other =
      let (exact, unchanged) =
        list-selects a store ctx undisturbed t configured (only_resource res) w v gs found in
      let kept = remove_grants_frame gs n s v (λ g m (same, named).
        let c = (exact g).0 m in
        other (
          same,
          ap (λ (r : CasbinRule). r.v1) named
              ∙ (ap (λ (x : Grant). x.resource) c.made
                  ∙ selected_resource res c.rule given
                      (selects-IsWanted (only_resource res) c.rule c.wanted)),
        )) in
      subst (λ x. holds x n s ≡ holds v n s) (ap (λ (x : Result (Unit {0}) × W). x.1) done) kept
      ∙ unchanged n s

  -- DeleteResourcePolicies, when it succeeds, leaves the enforcer without a plain rule of the resource,
  -- whatever its subject and its action; and it leaves every rule of another resource, and every rule of
  -- another enforcer, as it was.
  pub delete_resource_policies_lem :
      (res : ResourceName) (w w' : W)
      → delete_resource_policies a ctx res w ≡ (ok tt, w')
      → ((subject action : Text) → holds w' t.enforcer.name (rule_of subject res action) ≡ false)
        × ((n : Text) (s : CasbinRule)
            → ¬ ((n ≡ t.enforcer.name) × (s.v1 ≡ res))
            → holds w' n s ≡ holds w n s)
  unfolding delete_resource_policies delete_resource_policies_ex
  delete_resource_policies_lem [] w w' h = absurd (ground arith)
  delete_resource_policies_lem (c ∷ res) w w' h =
      let (gs, v, found, done) = and_then-ok _ _ tt w' h in
      (remove_found (c ∷ res) gs v w w' found done, others_kept (c ∷ res) gs v w w' refl found done)
