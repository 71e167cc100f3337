-- ===== src/Casdoor/Sample.antt =====
-- A server that can hold one rule of one enforcer, for the tests: the world is whether it holds it.
use aisphere_kit.Base.{
  Text, Bool, true, false, ◌&&◌, ◌∙◌, ◌==◌, eq_sound, eq_refl, pure-injective, List, [], ◌∷◌,
  Option, some, Result, ok, err, plain, ◌≡◌, ◌↔◌, inl, inr, refl, sym, ap, arith,
}
use mathlib.Core.Path.{subst}
use aisphere_kit.Base.Clock.{pos}
use aisphere_kit.Context.{Context}
use aisphere_kit.Casdoor.Client.{Client, CasbinRule}
use aisphere_kit.Casdoor.Settings.{Config}
use aisphere_kit.Casdoor.Calls.{Adapter}
use aisphere_kit.Casdoor.Policy.{rule_of, p_type, Target}
use aisphere_kit.Casdoor.Policy.Store.{PolicyStore, Undisturbed, Listed}
use aisphere_kit.Samples.{al, doc, read, quiet}

abbrev pub rule : CasbinRule
rule = rule_of al doc read

abbrev rest_eqb : List Text → List Text → Bool
rest_eqb [] [] = true
rest_eqb [] (y ∷ ys) = false
rest_eqb (x ∷ xs) [] = false
rest_eqb (x ∷ xs) (y ∷ ys) = x == y && rest_eqb xs ys

abbrev rule_eqb : CasbinRule → CasbinRule → Bool
rule_eqb r s =
    r.ptype == s.ptype && r.v0 == s.v0 && r.v1 == s.v1 && r.v2 == s.v2 && rest_eqb r.rest s.rest

-- The enforcer and the rule are the ones that the server knows.
abbrev pub known : Text → CasbinRule → Bool
known n r = n == doc && rule_eqb r rule

both : (b c : Bool) → (b && c) ≡ true → (b ≡ true) × (c ≡ true)
both true true h = (refl, refl)
both true false h = (refl, h)
both false c h = absurd (ground arith)

rest_sound : (xs : List Text) → rest_eqb xs [] ≡ true → xs ≡ []
rest_sound [] h = refl
rest_sound (x ∷ xs) h = absurd (ground arith)

rule_sound : (r : CasbinRule) → rule_eqb r rule ≡ true → r ≡ rule
rule_sound r h =
    let (h₁, d) =
      both (r.ptype == p_type && r.v0 == al && r.v1 == doc && r.v2 == read) (rest_eqb r.rest [])
        h in
    let (h₂, c) = both (r.ptype == p_type && r.v0 == al && r.v1 == doc) (r.v2 == read) h₁ in
    let (h₃, b) = both (r.ptype == p_type && r.v0 == al) (r.v1 == doc) h₂ in
    let (p, a) = both (r.ptype == p_type) (r.v0 == al) h₃ in
    λ i. record {
      ptype = eq_sound r.ptype p_type p i;
      v0 = eq_sound r.v0 al a i;
      v1 = eq_sound r.v1 doc b i;
      v2 = eq_sound r.v2 read c i;
      rest = rest_sound r.rest d i;
    }

known_sound : (n : Text) (r : CasbinRule) → known n r ≡ true → (n ≡ doc) × (r ≡ rule)
known_sound n r h =
    let (a, b) = both (n == doc) (rule_eqb r rule) h in (eq_sound n doc a, rule_sound r b)

rule_eqb_refl : rule_eqb rule rule ≡ true
rule_eqb_refl = rw (eq_refl p_type) (rw (eq_refl al, eq_refl doc, eq_refl read) refl)

abbrev change : Bool → Bool → Bool → Result Bool × Bool
change true to w = (ok true, to)
change false to w = (err (plain []), w)

abbrev pub holds : Bool → Text → CasbinRule → Bool
holds w n r = w && known n r

abbrev listing : Bool → List (Option CasbinRule)
listing true = some rule ∷ []
listing false = []

-- The answer to an enforce call is whether the rule is there.
abbrev pub client : Client Bool
client = record {
  get_policies = λ n id w. (ok (listing (w && n == doc)), w);
  add_policy = λ e r w. change (known e.name r) true w;
  remove_policy = λ e r w. change (known e.name r) false w;
  enforce = λ s question w. (ok w, w);
  add_record = λ r w. (ok true, w);
  get_application = λ name w. (ok tt, w);
  parse_jwt_token = λ t w. (err (plain []), w);
}

effect : (to k w w' b : Bool) → change k to w ≡ (ok b, w') → (k ≡ true) × (w' ≡ to)
effect to true w w' b h = (refl, sym (ap (λ (x : Result Bool × Bool). x.1) h))
effect to false w w' b h = absurd (ground arith)

keeps_true : (k w m : Bool) → (w && m) ≡ true → ((change k true w).1 && m) ≡ true
keeps_true true true m h = h
keeps_true true false m h = absurd (ground arith)
keeps_true false w m h = h

keeps_false : (k w m : Bool) → (w && m) ≡ false → ((change k false w).1 && m) ≡ false
keeps_false true w m h = refl
keeps_false false w m h = h

and_true : (b c : Bool) → b ≡ true → c ≡ true → (b && c) ≡ true
and_true b c h k = rw (h, k) refl

false_and : (b c : Bool) → b ≡ false → (b && c) ≡ false
false_and b c h = rw h refl

and_false : (b c : Bool) → (b && false) ≡ (c && false)
and_false true true = refl
and_false true false = refl
and_false false true = refl
and_false false false = refl

frame : (to k w m : Bool) → ¬ ((k ≡ true) × (m ≡ true)) → ((change k to w).1 && m) ≡ (w && m)
frame to true w true h = absurd (h (refl, refl))
frame to true w false h = and_false to w
frame to false w m h = refl

apart :
    (n j : Text) (r s : CasbinRule)
    → ¬ ((n ≡ j) × (s ≡ r))
    → ¬ ((known j r ≡ true) × (known n s ≡ true))
apart n j r s other (h, k) =
    let (a, b) = known_sound j r h in let (c, d) = known_sound n s k in other (c ∙ sym a, d ∙ sym b)

Listed-iff :
    (r : CasbinRule) (w d : Bool)
    → Listed r (listing (w && d)) ↔ ((w && (d && rule_eqb r rule)) ≡ true)
Listed-iff r true true = (found, λ h. inl (ap some (sym (rule_sound r h))))
  where
    found : Listed r (listing true) → rule_eqb r rule ≡ true
    found (inl e) =
        let same : rule ≡ r = cc in subst (λ x. rule_eqb x rule ≡ true) same rule_eqb_refl
    found (inr e) = absurd e
Listed-iff r true false = (λ m. absurd m, λ h. absurd (ground arith))
Listed-iff r false d = (λ m. absurd m, λ h. absurd (ground arith))

pub store : PolicyStore client
store = record {
  holds = holds;
  add_effect = λ e r w w' b h.
      let (k, t) = effect true (known e.name r) w w' b h in and_true w' (known e.name r) t k;
  add_keeps = λ e r w n s h. keeps_true (known e.name r) w (known n s) h;
  add_frame =
      λ e r w n s other. frame true (known e.name r) w (known n s) (apart n e.name r s other);
  remove_effect = λ e r w w' b h.
      let (k, t) = effect false (known e.name r) w w' b h in false_and w' (known e.name r) t;
  remove_keeps = λ e r w n s h. keeps_false (known e.name r) w (known n s) h;
  remove_frame =
      λ e r w n s other. frame false (known e.name r) w (known n s) (apart n e.name r s other);
  get_effect = λ n id w w' rules h r.
      subst (λ x. Listed r x ↔ (holds w' n r ≡ true))
        (pure-injective (listing (w && n == doc)) rules w w' h)
        (subst (λ v. Listed r (listing (w && n == doc)) ↔ (holds v n r ≡ true))
          (ap (λ (x : Result (List (Option CasbinRule)) × Bool). x.1) h)
          (Listed-iff r w (n == doc)));
  get_frame = λ n id w m s. refl;
}

abbrev pub config : Config
config = record {
  endpoint = [];
  client_id = [];
  client_secret = [];
  certificate = [];
  certificate_file = [];
  organization = al;
  application = al;
  permission_id = [];
  model_id = [];
  resource_id = [];
  enforcer_id = doc;
  owner = [];
  policy_enforcer = [];
  policy_adapter_id = [];
  http_timeout = [];
  default_scope = [];
  allow_anonymous = false;
  audit_async = false;
  audit_queue = pos 0;
  audit_timeout = [];
  retry_attempts = pos 2;
  retry_backoff = [];
}

abbrev pub adapter : Adapter Bool
adapter = record {
  cfg = config;
  client = client;
  retry_policy = record { attempts = pos 2; backoff = pos 1 };
}

abbrev pub target : Target
target = record { enforcer = record { owner = al; name = doc }; adapter_id = [] }

pub undisturbed : Undisturbed store (some quiet)
undisturbed n r b = record {
  by_poll = λ c e w h.
      subst (λ (x : Context Bool). store.holds (x.poll w).1 n r ≡ b) (same_context c e) h;
  by_pause = λ c e m w h.
      subst (λ (x : Context Bool). store.holds (x.pause m w).1 n r ≡ b) (same_context c e) h;
  by_race = λ c e w h.
      subst (λ (x : Context Bool). store.holds (x.race w).1 n r ≡ b) (same_context c e) h;
}
  where
    same_context : (c : Context Bool) → some quiet ≡ some c → quiet ≡ c
    same_context c e = cc
