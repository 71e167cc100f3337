-- ===== src/Casdoor/Policy/Listing.antt =====
-- casdoor/policy.go: which policies List returns.
use aisphere_kit.Base.{
  and_then-ok, Text, true, List, [], ◌∷◌, Option, none, some, Result, ok, err, ◌≡◌, refl, ◌↔◌, ◌⊎◌,
  inl, inr, ap, ◌∙◌, sym, arith, and_then, Bool, Bool-cases, codes, eq_sound, eq_refl, ◌&&◌,
}
use mathlib.Core.Path.{subst}
use aisphere_kit.Context.{Context}
use aisphere_kit.Permission.{Grant, ListFilter}
use aisphere_kit.Casdoor.Client.{CasbinRule}
use aisphere_kit.Casdoor.Calls.{Adapter, remote}
use aisphere_kit.Casdoor.Calls.Laws.{remote-ok, remote_inv}
use aisphere_kit.Casdoor.Policy.{
  policy_target, Target, grant_of, selects, collect, list, passes, p_type,
}
use aisphere_kit.Casdoor.Policy.Store.{PolicyStore, Undisturbed, Listed}

-- The grant is among those that were returned.
abbrev pub Returned : Grant → List Grant → Type 0
Returned g [] = ⊥
Returned g (h ∷ gs) = (h ≡ g) ⊎ Returned g gs

-- A field of the filter that is empty asks for nothing, and any other asks for its value.
abbrev pub Matches : Text → Text → Type 0
Matches wanted value = (wanted ≡ []) ⊎ (wanted ≡ value)

-- A rule of type "p" whose subject, resource and action are what the filter asks for.
pub record IsWanted (filter : ListFilter) (r : CasbinRule) : Type 0 where
  pub policy : r.ptype ≡ codes "p"
  pub subject : Matches filter.subject r.v0
  pub resource : Matches filter.resource r.v1
  pub action : Matches filter.action r.v2

passes-Matches : (wanted value : Text) → passes wanted value ≡ true → Matches wanted value
passes-Matches [] value h = inl refl
passes-Matches (c ∷ s) value h = inr (eq_sound (c ∷ s) value h)

Matches-passes : (wanted value : Text) → Matches wanted value → passes wanted value ≡ true
Matches-passes [] value m = refl
Matches-passes (c ∷ s) value (inl e) = absurd (ground arith)
Matches-passes (c ∷ s) value (inr e) = rw (sym e) (eq_refl (c ∷ s))

all_four :
    (a b c d : Bool) → a && b && c && d ≡ true → (a ≡ true) × (b ≡ true) × (c ≡ true) × (d ≡ true)
all_four a b c d h = (ground arith, ground arith, ground arith, ground arith)

pub IsWanted-selects :
    (filter : ListFilter) (r : CasbinRule) → selects filter r ≡ true → IsWanted filter r
IsWanted-selects filter r h =
    let (p, s, o, a) = all_four _ _ _ _ h in
    record {
      policy = eq_sound r.ptype (codes "p") p;
      subject = passes-Matches _ _ s;
      resource = passes-Matches _ _ o;
      action = passes-Matches _ _ a;
    }

pub selects-IsWanted :
    (filter : ListFilter) (r : CasbinRule) → IsWanted filter r → selects filter r ≡ true
selects-IsWanted filter r m =
    rw
      (
        m.policy,
        eq_refl p_type,
        Matches-passes _ _ m.subject,
        Matches-passes _ _ m.resource,
        Matches-passes _ _ m.action,
      )
      refl

module _ (filter : ListFilter) where
  -- A rule that is listed, selected, and of which the grant is made.
  pub record Source (rules : List (Option CasbinRule)) (g : Grant) : Type 0 where
    pub rule : CasbinRule
    pub listed : Listed rule rules
    pub selected : selects filter rule ≡ true
    pub made : grant_of rule ≡ g

  later :
      (o : Option CasbinRule) (rules : List (Option CasbinRule)) (g : Grant)
      → Source rules g
      → Source (o ∷ rules) g
  later o rules g c = record {
    rule = c.rule;
    listed = inr c.listed;
    selected = c.selected;
    made = c.made;
  }

  first :
      (r : CasbinRule) (rules : List (Option CasbinRule)) (g : Grant)
      → selects filter r ≡ true
      → (Returned g (collect filter rules) → Source rules g)
      → (grant_of r ≡ g) ⊎ Returned g (collect filter rules)
      → Source (some r ∷ rules) g
  first r rules g e after (inl same) = record {
    rule = r;
    listed = inl refl;
    selected = e;
    made = same;
  }
  first r rules g e after (inr m) = later (some r) rules g (after m)

  pub Source-collect :
      (rules : List (Option CasbinRule)) (g : Grant)
      → Returned g (collect filter rules)
      → Source rules g
  unfolding collect
  Source-collect [] g m = absurd m
  Source-collect (none ∷ rules) g m = later none rules g (Source-collect rules g m)
  Source-collect (some r ∷ rules) g m = elim (Bool-cases (selects filter r)) [
    | inl e ↦ first r rules g e (Source-collect rules g) (rw e at m)
    | inr e ↦ later (some r) rules g (Source-collect rules g (rw e at m))
  ]

  collect-Returned :
      (rules : List (Option CasbinRule)) (r : CasbinRule)
      → Listed r rules
      → selects filter r ≡ true
      → Returned (grant_of r) (collect filter rules)
  unfolding collect
  collect-Returned [] r m s = m
  collect-Returned (none ∷ rules) r (inl e) s = absurd (ground arith)
  collect-Returned (none ∷ rules) r (inr m) s = collect-Returned rules r m s
  collect-Returned (some x ∷ rules) r (inl e) s =
      let same : x ≡ r = cc in
      let chosen : selects filter x ≡ true = ap (selects filter) same ∙ s in
      rw chosen (inl (ap grant_of same))
  collect-Returned (some x ∷ rules) r (inr m) s =
      let later = collect-Returned rules r m s in
      elim (Bool-cases (selects filter x)) [ inl e ↦ rw e (inr later) | inr e ↦ rw e later ]

module _ {W : Type 0} (a : Adapter W) (store : PolicyStore a.client) (ctx : Option (Context W))
    (undisturbed : Undisturbed store ctx) (t : Target)
    (configured : policy_target a.cfg ≡ ok t) where
  open store use {holds}

  -- A listing that succeeds is the loop over an answer of the server, which tells of the rules there are.
  pub list-ok :
      (filter : ListFilter) (w w' : W) (gs : List Grant)
      → list a ctx filter w ≡ (ok gs, w')
      → (rules : List (Option CasbinRule)) × (gs ≡ collect filter rules)
        × ((r : CasbinRule) → Listed r rules ↔ (holds w' t.enforcer.name r ≡ true))
  unfolding list
  list-ok filter w w' gs h =
      let call = a.client.get_policies t.enforcer.name t.adapter_id in
      let found : and_then (λ rules v. (ok (collect filter rules), v)) (remote a ctx call w)
          ≡ (ok gs, w') =
        rw configured at h in
      let (rules, v, called, done) = and_then-ok _ _ gs w' found in
      let (u, answered) = remote-ok a ctx call w v rules called in
      let same : v ≡ w' = ap (λ (x : Result (List Grant) × W). x.1) done in
      (
        rules,
        cc,
        λ r.
            subst (λ x. Listed r rules ↔ (holds x t.enforcer.name r ≡ true)) same
              (store.get_effect t.enforcer.name t.adapter_id u v rules answered r),
      )

  and_then-list :
      (filter : ListFilter) (r : Result (List (Option CasbinRule)) × W)
      → (and_then (λ rules v. (ok (collect filter rules), v)) r).1 ≡ r.1
  and_then-list filter (ok rules, v) = refl
  and_then-list filter (err e, v) = refl

  -- A listing changes no rule.
  pub list_frame :
      (filter : ListFilter) (n : Text) (s : CasbinRule) (w : W)
      → holds (list a ctx filter w).1 n s ≡ holds w n s
  unfolding list
  list_frame filter n s w = rw configured (
      rw (and_then-list filter) (
        remote_inv a ctx (a.client.get_policies t.enforcer.name t.adapter_id)
          (λ x. holds x n s ≡ holds w n s) (undisturbed n s (holds w n s))
          (λ v h. store.get_frame t.enforcer.name t.adapter_id v n s ∙ h) w refl))

  -- The grant is made of a rule that the enforcer holds and the filter selects.
  pub record Comes (filter : ListFilter) (w : W) (g : Grant) : Type 0 where
    pub rule : CasbinRule
    pub held : holds w t.enforcer.name rule ≡ true
    pub wanted : IsWanted filter rule
    pub made : g ≡ record {
      subject = rule.v0;
      subject_type = [];
      subject_id = [];
      resource = rule.v1;
      action = rule.v2;
      role = [];
      actions = [];
      domain = [];
      granted_by = [];
      expires_at = none;
      metadata = [];
    }

  -- List, when it succeeds, returns exactly the grants made of the subject, the resource and the action
  -- of a rule of type "p" that the enforcer holds and that has the subject, the resource and the action
  -- which the filter asks for, and it has changed no rule of any enforcer. The server is taken to answer
  -- with the rules that it holds, and nobody else to change a rule in the meantime.
  pub list-selects :
      (filter : ListFilter) (w w' : W) (gs : List Grant)
      → list a ctx filter w ≡ (ok gs, w')
      → ((g : Grant) → Returned g gs ↔ Comes filter w' g)
        × ((n : Text) (s : CasbinRule) → holds w' n s ≡ holds w n s)
  list-selects filter w w' gs h =
      let (rules, collected, known) = list-ok filter w w' gs h in
      (
        λ g. (
          λ m.
              let c = Source-collect filter rules g (subst (Returned g) collected m) in
              record {
                rule = c.rule;
                held = (known c.rule).0 c.listed;
                wanted = IsWanted-selects filter c.rule c.selected;
                made = sym c.made;
              },
          λ c. subst (Returned g) (sym collected) (
              subst (λ x. Returned x (collect filter rules)) (sym c.made)
                (collect-Returned filter rules c.rule ((known c.rule).1 c.held)
                  (selects-IsWanted filter c.rule c.wanted))),
        ),
        λ n s.
            subst (λ x. holds x n s ≡ holds w n s) (ap (λ (x : Result (List Grant) × W). x.1) h)
              (list_frame filter n s w),
      )
