-- ===== src/Casdoor/Policy/Effects.antt =====
-- casdoor/policy.go: what adding or removing the rules of several actions does to the policies.
use mathlib.Core.Path.{subst}
use aisphere_kit.Base.{
  Text, Bool, true, false, List, [], ◌∷◌, Option, Result, ok, err, ◌≡◌, refl, ap, ◌∙◌, arith,
  and_then, All,
}
use aisphere_kit.Context.{Context}
use aisphere_kit.Permission.{ResourceName}
use aisphere_kit.Casdoor.Client.{CasbinRule}
use aisphere_kit.Casdoor.Calls.{Adapter}
use aisphere_kit.Casdoor.Policy.{
  policy_target, Target, rule_of, add_policy, remove_policy, add_each, remove_each,
}
use aisphere_kit.Casdoor.Policy.Store.{
  PolicyStore, Undisturbed, add_policy-holds, add_policy_keeps, add_policy_frame,
  remove_policy-holds, remove_policy_keeps, remove_policy_frame,
}

pub lift-ok :
    {W A B : Type 0} (r : Result A) (f : A → W → Result B × W) (w w' : W) (b : B)
    → and_then f (r, w) ≡ (ok b, w')
    → (a : A) × (r ≡ ok a) × (f a w ≡ (ok b, w'))
lift-ok (ok a) f w w' b h = (a, refl, h)
lift-ok (err e) f w w' b h = absurd (ground arith)

module _ {W B : Type 0} (k : W → Result B × W) where
  pub seq-ok :
      (r : Result (Unit {0}) × W) (b : B) (w' : W)
      → and_then (λ _. k) r ≡ (ok b, w')
      → (r ≡ (ok tt, r.1)) × (k r.1 ≡ (ok b, w'))
  seq-ok (ok tt, v) b w' h = (refl, h)
  seq-ok (err e, v) b w' h = absurd (ground arith)

  pub seq_inv :
      (P : W → Type 0) (r : Result (Unit {0}) × W)
      → P r.1
      → ((v : W) → P v → P (k v).1)
      → P (and_then (λ _. k) r).1
  seq_inv P (ok u, v) h step = step v h
  seq_inv P (err e, v) h step = h

module _ {W : Type 0} (a : Adapter W) (store : PolicyStore a.client) (ctx : Option (Context W))
    (undisturbed : Undisturbed store ctx) (t : Target)
    (configured : policy_target a.cfg ≡ ok t) where
  open store use {holds}

  module _ (subject : Text) (res : ResourceName) where
    -- Every one of the actions is granted, or none of them is.
    abbrev pub AllHold : W → List Text → Bool → Type 0
    AllHold w acts b = All (λ act. holds w t.enforcer.name (rule_of subject res act) ≡ b) acts

    -- The rule `s` of the enforcer `n` is none of those for the actions.
    abbrev pub IsOther : Text → CasbinRule → List Text → Type 0
    IsOther n s acts = All (λ act. ¬ ((n ≡ t.enforcer.name) × (s ≡ rule_of subject res act))) acts

    add_each_keeps :
        (acts : List Text) (n : Text) (s : CasbinRule) (w : W)
        → holds w n s ≡ true
        → holds (add_each a ctx subject res acts w).1 n s ≡ true
    unfolding add_each
    add_each_keeps [] n s w h = h
    add_each_keeps (act ∷ acts) n s w h =
        seq_inv (add_each a ctx subject res acts) (λ v. holds v n s ≡ true)
          (add_policy a ctx subject res act w)
          (add_policy_keeps a store ctx undisturbed t configured subject res act n s w h)
          (add_each_keeps acts n s)

    add_each-holds :
        (acts : List Text) (w w' : W)
        → add_each a ctx subject res acts w ≡ (ok tt, w')
        → AllHold w' acts true
    unfolding add_each
    add_each-holds [] w w' h = tt
    add_each-holds (act ∷ acts) w w' h =
        let (done, rest) =
          seq-ok (add_each a ctx subject res acts) (add_policy a ctx subject res act w) tt w' h in
        let v = (add_policy a ctx subject res act w).1 in
        (
          subst (λ x. holds x t.enforcer.name (rule_of subject res act) ≡ true)
              (ap (λ (x : Result (Unit {0}) × W). x.1) rest)
              (add_each_keeps acts t.enforcer.name (rule_of subject res act) v
                (add_policy-holds a store ctx undisturbed t configured subject res act w v done)),
          add_each-holds acts v w' rest,
        )

    add_each_frame :
        (acts : List Text) (n : Text) (s : CasbinRule) (w : W)
        → IsOther n s acts
        → holds (add_each a ctx subject res acts w).1 n s ≡ holds w n s
    unfolding add_each
    add_each_frame [] n s w h = refl
    add_each_frame (act ∷ acts) n s w (this, others) =
        seq_inv (add_each a ctx subject res acts) (λ v. holds v n s ≡ holds w n s)
          (add_policy a ctx subject res act w)
          (add_policy_frame a store ctx undisturbed t configured subject res act n s this w)
          (λ v h. add_each_frame acts n s v others ∙ h)

    remove_each_keeps :
        (acts : List Text) (n : Text) (s : CasbinRule) (w : W)
        → holds w n s ≡ false
        → holds (remove_each a ctx subject res acts w).1 n s ≡ false
    unfolding remove_each
    remove_each_keeps [] n s w h = h
    remove_each_keeps (act ∷ acts) n s w h =
        seq_inv (remove_each a ctx subject res acts) (λ v. holds v n s ≡ false)
          (remove_policy a ctx subject res act w)
          (remove_policy_keeps a store ctx undisturbed t configured subject res act n s w h)
          (remove_each_keeps acts n s)

    remove_each-holds :
        (acts : List Text) (w w' : W)
        → remove_each a ctx subject res acts w ≡ (ok tt, w')
        → AllHold w' acts false
    unfolding remove_each
    remove_each-holds [] w w' h = tt
    remove_each-holds (act ∷ acts) w w' h =
        let (done, rest) =
          seq-ok (remove_each a ctx subject res acts) (remove_policy a ctx subject res act w) tt w'
            h in
        let v = (remove_policy a ctx subject res act w).1 in
        (
          subst (λ x. holds x t.enforcer.name (rule_of subject res act) ≡ false)
              (ap (λ (x : Result (Unit {0}) × W). x.1) rest)
              (remove_each_keeps acts t.enforcer.name (rule_of subject res act) v (
                remove_policy-holds a store ctx undisturbed t configured subject res act w v done)),
          remove_each-holds acts v w' rest,
        )

    remove_each_frame :
        (acts : List Text) (n : Text) (s : CasbinRule) (w : W)
        → IsOther n s acts
        → holds (remove_each a ctx subject res acts w).1 n s ≡ holds w n s
    unfolding remove_each
    remove_each_frame [] n s w h = refl
    remove_each_frame (act ∷ acts) n s w (this, others) =
        seq_inv (remove_each a ctx subject res acts) (λ v. holds v n s ≡ holds w n s)
          (remove_policy a ctx subject res act w)
          (remove_policy_frame a store ctx undisturbed t configured subject res act n s this w)
          (λ v h. remove_each_frame acts n s v others ∙ h)

  -- The rules of the subject and the resource for the actions are there, or they are not, by `b`; every
  -- other rule, of this enforcer and of any other, is as before.
  pub record HaveSet (b : Bool) (subject : Text) (res : ResourceName) (acts : List Text) (w w' : W)
      : Type 0 where
    pub all : AllHold subject res w' acts b
    pub others :
        (n : Text) (s : CasbinRule) → IsOther subject res n s acts → holds w' n s ≡ holds w n s

  pub world_of : (r : Result (Unit {0}) × W) (w' : W) → r ≡ (ok tt, w') → r.1 ≡ w'
  world_of r w' h = ap (λ (x : Result (Unit {0}) × W). x.1) h

  pub add_each-HaveSet :
      (subject : Text) (res : ResourceName) (acts : List Text) (w w' : W)
      → add_each a ctx subject res acts w ≡ (ok tt, w')
      → HaveSet true subject res acts w w'
  add_each-HaveSet subject res acts w w' h = record {
    all = add_each-holds subject res acts w w' h;
    others = λ n s other. rw (← world_of _ w' h) (add_each_frame subject res acts n s w other);
  }

  pub remove_each-HaveSet :
      (subject : Text) (res : ResourceName) (acts : List Text) (w w' : W)
      → remove_each a ctx subject res acts w ≡ (ok tt, w')
      → HaveSet false subject res acts w w'
  remove_each-HaveSet subject res acts w w' h = record {
    all = remove_each-holds subject res acts w w' h;
    others = λ n s other. rw (← world_of _ w' h) (remove_each_frame subject res acts n s w other);
  }
