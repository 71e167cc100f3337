-- ===== src/Casdoor/Policy/Grants.antt =====
-- casdoor/policy.go: what Grant, GrantRole, Share and Revoke do to the policies.
use mathlib.Core.Path.{subst}
use aisphere_kit.Base.{
  Text, Bool, true, false, List, [], ◌∷◌, Option, ok, ◌≡◌, refl, ◌∙◌, sym, is_empty, if◌then◌else◌,
}
use aisphere_kit.Context.{Context}
use aisphere_kit.Permission.{
  Grant, ShareRequest, RoleActionMapper, normalize_grant, normalize_share,
  role_actions_for_resource,
}
use aisphere_kit.Permission.Normalize.{
  IsNormal, normalize_grant-IsNormal, normalize_grant-fixed_iff, normalize_share-IsNormal,
}
use aisphere_kit.Casdoor.Calls.{Adapter}
use aisphere_kit.Casdoor.Policy.{
  policy_target, Target, add_policy, grant_role, grant, share, revoke, revoked_actions,
}
use aisphere_kit.Casdoor.Policy.Store.{PolicyStore, Undisturbed, add_policy-holds, add_policy_frame}
use aisphere_kit.Casdoor.Policy.Effects.{
  lift-ok, HaveSet, add_each-HaveSet, remove_each-HaveSet, world_of,
}

-- The actions that a grant is about: those of its role or list of actions where it names no action,
-- and else the action that it names alone.
abbrev pub Expands : Option RoleActionMapper → Grant → Bool → List Text → Type 0
Expands mapper g true acts = role_actions_for_resource mapper g.resource g.role g.actions ≡ ok acts
Expands mapper g false acts = acts ≡ g.action ∷ []

result-injective : (xs ys : List Text) → ok xs ≡ ok ys → ys ≡ xs
result-injective xs ys h = cc

Expands-revoked_actions :
    (mapper : Option RoleActionMapper) (g : Grant) (acts : List Text) (z : Bool)
    → is_empty g.action ≡ z
    → revoked_actions mapper g ≡ ok acts
    → Expands mapper g z acts
unfolding revoked_actions
Expands-revoked_actions mapper g acts true z h = rw z at h
Expands-revoked_actions mapper g acts false z h = result-injective (g.action ∷ []) acts (rw z at h)

module _ {W : Type 0} (a : Adapter W) (store : PolicyStore a.client) (ctx : Option (Context W))
    (undisturbed : Undisturbed store ctx) (t : Target)
    (configured : policy_target a.cfg ≡ ok t) where
  open store use {holds}

  module _ (mapper : Option RoleActionMapper) where
    -- The effect of a grant or a revocation: the request is normalized, its role is expanded, and the
    -- rules for the actions are set.
    pub record Done (b : Bool) (g : Grant) (w w' : W) : Type 0 where
      pub actions : List Text
      pub expanded : Expands mapper g (is_empty g.action) actions
      pub set : HaveSet a store ctx undisturbed t configured b g.subject g.resource actions w w'

    -- GrantRole, when it succeeds, has added a rule for each action that the role, or else the list of
    -- actions, of the normalized grant stands for, and has changed no other rule.
    pub grant_role-HaveSet :
        (request : Grant) (w w' : W)
        → grant_role a ctx mapper request w ≡ (ok tt, w')
        → (g : Grant) × (acts : List Text) × (normalize_grant request ≡ ok g)
          × (role_actions_for_resource mapper g.resource g.role g.actions ≡ ok acts)
          × HaveSet a store ctx undisturbed t configured true g.subject g.resource acts w w'
    unfolding grant_role
    grant_role-HaveSet request w w' h =
        let (g, normal, h₁) = lift-ok _ _ w w' tt h in
        let (acts, expanded, h₂) = lift-ok _ _ w w' tt h₁ in
        (
          g,
          acts,
          normal,
          expanded,
          add_each-HaveSet a store ctx undisturbed t configured g.subject g.resource acts w w' h₂,
        )

    -- Revoke, when it succeeds, has removed the rule for the action of the normalized grant, or, if it
    -- has none, for each action that its role or list of actions stands for, and has changed no other
    -- rule.
    pub revoke-Done :
        (request : Grant) (w w' : W)
        → revoke a ctx mapper request w ≡ (ok tt, w')
        → (g : Grant) × (normalize_grant request ≡ ok g) × Done false g w w'
    unfolding revoke
    revoke-Done request w w' h =
        let (g, normal, h₁) = lift-ok _ _ w w' tt h in
        let (acts, expanded, h₂) = lift-ok _ _ w w' tt h₁ in
        (
          g,
          normal,
          record {
            actions = acts;
            expanded = Expands-revoked_actions mapper g acts _ refl expanded;
            set =
                remove_each-HaveSet a store ctx undisturbed t configured g.subject g.resource acts w
                  w' h₂;
          },
        )

    ok-injective : (g h : Grant) → ok g ≡ ok h → h ≡ g
    ok-injective g h e = cc

    -- GrantRole on a grant that is normal already.
    pub grant_role_normal :
        (g : Grant) (w w' : W)
        → IsNormal g
        → grant_role a ctx mapper g w ≡ (ok tt, w')
        → (acts : List Text) × (role_actions_for_resource mapper g.resource g.role g.actions
            ≡ ok acts)
          × HaveSet a store ctx undisturbed t configured true g.subject g.resource acts w w'
    grant_role_normal g w w' n h =
        let (g', acts, normal, expanded, set) = grant_role-HaveSet g w w' h in
        let same : g' ≡ g = ok-injective g g' (sym ((normalize_grant-fixed_iff g).1 n) ∙ normal) in
        (
          acts,
          subst
              (λ (x : Grant).
                role_actions_for_resource mapper x.resource x.role x.actions ≡ ok acts)
              same expanded,
          subst
              (λ (x : Grant).
                HaveSet a store ctx undisturbed t configured true x.subject x.resource acts w w')
              same set,
        )

    grant_by :
        (g : Grant) (w w' : W) (z : Bool)
        → is_empty g.action ≡ z
        → IsNormal g
        → (if is_empty g.action
              then grant_role a ctx mapper g
              else add_policy a ctx g.subject g.resource g.action)
            w
          ≡ (ok tt, w')
        → Done true g w w'
    grant_by g w w' true z n h =
        let (acts, expanded, set) = grant_role_normal g w w' n (rw z at h) in
        record { actions = acts; expanded = rw z expanded; set = set }
    grant_by g w w' false z n h =
        let added : add_policy a ctx g.subject g.resource g.action w ≡ (ok tt, w') = rw z at h in
        record {
          actions = g.action ∷ [];
          expanded = rw z refl;
          set = record {
            all = (
              add_policy-holds a store ctx undisturbed t configured g.subject g.resource g.action w
                  w' added,
              tt,
            );
            others = λ m s other. rw (← world_of a store ctx undisturbed t configured _ w' added) (
                add_policy_frame a store ctx undisturbed t configured g.subject g.resource g.action
                  m s other.0 w);
          };
        }

    -- Grant, when it succeeds, has added the rule for the action of the normalized grant, or, if it has
    -- none, for each action that its role or list of actions stands for, and has changed no other rule.
    pub grant-Done :
        (request : Grant) (w w' : W)
        → grant a ctx mapper request w ≡ (ok tt, w')
        → (g : Grant) × (normalize_grant request ≡ ok g) × Done true g w w'
    unfolding grant
    grant-Done request w w' h =
        let (g, normal, h₁) = lift-ok _ _ w w' tt h in
        (g, normal, grant_by g w w' _ refl (normalize_grant-IsNormal request g normal) h₁)

    -- Share, when it succeeds, has added a rule for each action that the role, or else the list of
    -- actions, of the request stands for, and has changed no other rule.
    pub share-HaveSet :
        (req : ShareRequest) (w w' : W)
        → share a ctx mapper req w ≡ (ok tt, w')
        → (g : Grant) × (acts : List Text) × (normalize_share req ≡ ok g)
          × (role_actions_for_resource mapper g.resource g.role g.actions ≡ ok acts)
          × HaveSet a store ctx undisturbed t configured true g.subject g.resource acts w w'
    unfolding share
    share-HaveSet req w w' h =
        let (g, normal, h₁) = lift-ok _ _ w w' tt h in
        let (acts, expanded, set) =
          grant_role_normal g w w' (normalize_share-IsNormal req g normal) h₁ in
        (g, acts, normal, expanded, set)
