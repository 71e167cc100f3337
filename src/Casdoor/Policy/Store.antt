-- ===== src/Casdoor/Policy/Store.antt =====
-- casdoor/policy.go: what the policy operations rely on, and what one added or removed policy does.
use mathlib.Core.Path.{subst}
use aisphere_kit.Base.{
  and_then-ok, Text, Bool, true, false, List, [], ◌∷◌, Option, some, Result, ok, err, ◌≡◌, refl,
  ◌↔◌, ◌⊎◌, ap, ◌∙◌, sym, and_then, pure,
}
use aisphere_kit.Context.{Context}
use aisphere_kit.Casdoor.Client.{Client, CasbinRule, Enforcer}
use aisphere_kit.Casdoor.Calls.{Adapter, remote}
use aisphere_kit.Casdoor.Calls.Laws.{IsQuiet, remote-ok, remote_inv}
use aisphere_kit.Casdoor.Policy.{policy_target, Target, rule_of, add_policy, remove_policy}

-- The rule is among the answers of the server.
abbrev pub Listed : CasbinRule → List (Option CasbinRule) → Type 0
Listed r [] = ⊥
Listed r (o ∷ rules) = (o ≡ some r) ⊎ Listed r rules

-- What the policy API of the server promises, by the rules that each enforcer holds: a call that
-- succeeds has its effect, a call that fails does not have the opposite effect, and no call touches
-- another rule or another enforcer's rules. What the Boolean answer says is left open.
pub record PolicyStore {W : Type 0} (client : Client W) : Type 0 where
  pub holds : W → Text → CasbinRule → Bool
  pub add_effect :
      (e : Enforcer) (r : CasbinRule) (w w' : W) (b : Bool)
      → client.add_policy e r w ≡ (ok b, w')
      → holds w' e.name r ≡ true
  pub add_keeps :
      (e : Enforcer) (r : CasbinRule) (w : W) (n : Text) (s : CasbinRule)
      → holds w n s ≡ true
      → holds (client.add_policy e r w).1 n s ≡ true
  pub add_frame :
      (e : Enforcer) (r : CasbinRule) (w : W) (n : Text) (s : CasbinRule)
      → ¬ ((n ≡ e.name) × (s ≡ r))
      → holds (client.add_policy e r w).1 n s ≡ holds w n s
  pub remove_effect :
      (e : Enforcer) (r : CasbinRule) (w w' : W) (b : Bool)
      → client.remove_policy e r w ≡ (ok b, w')
      → holds w' e.name r ≡ false
  pub remove_keeps :
      (e : Enforcer) (r : CasbinRule) (w : W) (n : Text) (s : CasbinRule)
      → holds w n s ≡ false
      → holds (client.remove_policy e r w).1 n s ≡ false
  pub remove_frame :
      (e : Enforcer) (r : CasbinRule) (w : W) (n : Text) (s : CasbinRule)
      → ¬ ((n ≡ e.name) × (s ≡ r))
      → holds (client.remove_policy e r w).1 n s ≡ holds w n s
  pub get_effect :
      (n adapter_id : Text) (w w' : W) (rules : List (Option CasbinRule))
      → client.get_policies n adapter_id w ≡ (ok rules, w')
      → (r : CasbinRule) → Listed r rules ↔ (holds w' n r ≡ true)
  pub get_frame :
      (n adapter_id : Text) (w : W) (m : Text) (s : CasbinRule)
      → holds (client.get_policies n adapter_id w).1 m s ≡ holds w m s

and_then-world :
    {W A : Type 0} (r : Result A × W) → (and_then (λ _. pure {A = Unit {0}} tt) r).1 ≡ r.1
and_then-world (ok a, v) = refl
and_then-world (err e, v) = refl

-- No other goroutine changes the policies while an operation polls, waits or races.
abbrev pub Undisturbed :
    {W : Type 0} {client : Client W} → PolicyStore client → Option (Context W) → Type 0
Undisturbed store ctx =
    (n : Text) (r : CasbinRule) (b : Bool) → IsQuiet ctx (λ w. store.holds w n r ≡ b)

-- The operations of an adapter whose enforcer is configured, on a store that nobody else changes.
module _ {W : Type 0} (a : Adapter W) (store : PolicyStore a.client) (ctx : Option (Context W))
    (undisturbed : Undisturbed store ctx) (t : Target)
    (configured : policy_target a.cfg ≡ ok t) where
  open store use {holds}

  add_policy_lem :
      (subject object action : Text) (w : W)
      → add_policy a ctx subject object action w
        ≡ and_then
            (λ _. pure tt)
            (remote a ctx (a.client.add_policy t.enforcer (rule_of subject object action)) w)
  unfolding add_policy
  add_policy_lem subject object action w = rw configured refl

  remove_policy_lem :
      (subject object action : Text) (w : W)
      → remove_policy a ctx subject object action w
        ≡ and_then
            (λ _. pure tt)
            (remote a ctx (a.client.remove_policy t.enforcer (rule_of subject object action)) w)
  unfolding remove_policy
  remove_policy_lem subject object action w = rw configured refl

  module _ (subject object action : Text) where
    abbrev rule : CasbinRule
    rule = rule_of subject object action

    pub add_policy-holds :
        (w w' : W)
        → add_policy a ctx subject object action w ≡ (ok tt, w')
        → holds w' t.enforcer.name rule ≡ true
    add_policy-holds w w' h =
        let (b, v, called, done) =
          and_then-ok _ _ tt w' (sym (add_policy_lem subject object action w) ∙ h) in
        let (u, answered) = remote-ok a ctx (a.client.add_policy t.enforcer rule) w v b called in
        subst (λ x. holds x t.enforcer.name rule ≡ true)
          (ap (λ (x : Result (Unit {0}) × W). x.1) done)
          (store.add_effect t.enforcer rule u v b answered)

    pub remove_policy-holds :
        (w w' : W)
        → remove_policy a ctx subject object action w ≡ (ok tt, w')
        → holds w' t.enforcer.name rule ≡ false
    remove_policy-holds w w' h =
        let (b, v, called, done) =
          and_then-ok _ _ tt w' (sym (remove_policy_lem subject object action w) ∙ h) in
        let (u, answered) = remote-ok a ctx (a.client.remove_policy t.enforcer rule) w v b called in
        subst (λ x. holds x t.enforcer.name rule ≡ false)
          (ap (λ (x : Result (Unit {0}) × W). x.1) done)
          (store.remove_effect t.enforcer rule u v b answered)

    -- What the calls of the SDK keep, the operation keeps, also when it fails.
    add_policy_inv :
        (n : Text) (r : CasbinRule) (b : Bool)
        → ((w : W) → holds w n r ≡ b → holds (a.client.add_policy t.enforcer rule w).1 n r ≡ b)
        → (w : W) → holds w n r ≡ b
        → holds (add_policy a ctx subject object action w).1 n r ≡ b
    add_policy_inv n r b by_call w h = rw (add_policy_lem subject object action w) (
        rw and_then-world (
          remote_inv a ctx (a.client.add_policy t.enforcer rule) (λ x. holds x n r ≡ b)
            (undisturbed n r b) by_call w h))

    remove_policy_inv :
        (n : Text) (r : CasbinRule) (b : Bool)
        → ((w : W) → holds w n r ≡ b → holds (a.client.remove_policy t.enforcer rule w).1 n r ≡ b)
        → (w : W) → holds w n r ≡ b
        → holds (remove_policy a ctx subject object action w).1 n r ≡ b
    remove_policy_inv n r b by_call w h = rw (remove_policy_lem subject object action w) (
        rw and_then-world (
          remote_inv a ctx (a.client.remove_policy t.enforcer rule) (λ x. holds x n r ≡ b)
            (undisturbed n r b) by_call w h))

    pub add_policy_keeps :
        (n : Text) (s : CasbinRule) (w : W)
        → holds w n s ≡ true
        → holds (add_policy a ctx subject object action w).1 n s ≡ true
    add_policy_keeps n s = add_policy_inv n s true (λ v. store.add_keeps t.enforcer rule v n s)

    pub remove_policy_keeps :
        (n : Text) (s : CasbinRule) (w : W)
        → holds w n s ≡ false
        → holds (remove_policy a ctx subject object action w).1 n s ≡ false
    remove_policy_keeps n s =
        remove_policy_inv n s false (λ v. store.remove_keeps t.enforcer rule v n s)

    pub add_policy_frame :
        (n : Text) (s : CasbinRule)
        → ¬ ((n ≡ t.enforcer.name) × (s ≡ rule))
        → (w : W) → holds (add_policy a ctx subject object action w).1 n s ≡ holds w n s
    add_policy_frame n s other w =
        add_policy_inv n s (holds w n s) (λ v h. store.add_frame t.enforcer rule v n s other ∙ h) w
          refl

    pub remove_policy_frame :
        (n : Text) (s : CasbinRule)
        → ¬ ((n ≡ t.enforcer.name) × (s ≡ rule))
        → (w : W) → holds (remove_policy a ctx subject object action w).1 n s ≡ holds w n s
    remove_policy_frame n s other w =
        remove_policy_inv n s (holds w n s)
          (λ v h. store.remove_frame t.enforcer rule v n s other ∙ h) w refl
