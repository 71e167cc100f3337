-- ===== src/Casdoor/Settings.antt =====
-- casdoor/config.go and casdoor/adapter.go: the settings of the adapter, and the choice of one
-- selector for an enforce call.
use aisphere_kit.Base.{
  Text, Bool, List, [], ◌∷◌, is_empty, if◌then◌else◌, ◌≡◌, refl, ℕ, not, suc, ◌≤◌, arith,
  first_non_empty, Text,
}
use aisphere_kit.Base.Clock.{ℤ}
use aisphere_kit.Casdoor.Client.{Selectors}

pub record Config : Type 0 where
  pub endpoint : Text
  pub client_id : Text
  pub client_secret : Text
  pub certificate : Text
  pub certificate_file : Text
  pub organization : Text
  pub application : Text
  pub permission_id : Text
  pub model_id : Text
  pub resource_id : Text
  pub enforcer_id : Text
  pub owner : Text
  pub policy_enforcer : Text
  pub policy_adapter_id : Text
  pub http_timeout : Text
  pub default_scope : Text
  pub allow_anonymous : Bool
  pub audit_async : Bool
  pub audit_queue : ℤ
  pub audit_timeout : Text
  pub retry_attempts : ℤ
  pub retry_backoff : Text

abbrev pub no_selectors : Selectors
no_selectors = record {
  permission_id = [];
  model_id = [];
  resource_id = [];
  enforcer_id = [];
  owner = [];
}

unfoldable pub enforce_selectors : Config → Selectors
enforce_selectors cfg =
    if not (is_empty cfg.permission_id)
    then record no_selectors { permission_id = cfg.permission_id }
    else if not (is_empty cfg.model_id)
    then record no_selectors { model_id = cfg.model_id }
    else if not (is_empty cfg.resource_id)
    then record no_selectors { resource_id = cfg.resource_id }
    else if not (is_empty cfg.enforcer_id)
    then record no_selectors { enforcer_id = cfg.enforcer_id }
    else if not (is_empty cfg.owner)
    then record no_selectors { owner = cfg.owner }
    else no_selectors

abbrev pub selector_list : Selectors → List Text
selector_list s = s.permission_id ∷ s.model_id ∷ s.resource_id ∷ s.enforcer_id ∷ s.owner ∷ []

-- The selectors of the configuration, in the order of their priority.
abbrev pub configured_selectors : Config → List Text
configured_selectors cfg =
    cfg.permission_id ∷ cfg.model_id ∷ cfg.resource_id ∷ cfg.enforcer_id ∷ cfg.owner ∷ []

abbrev pub count_given : List Text → ℕ
count_given [] = 0
count_given ([] ∷ xs) = count_given xs
count_given ((c ∷ x) ∷ xs) = suc (count_given xs)

-- At most one selector is active, and it is the first of the configured ones that is given; none is
-- active exactly when none is configured.
pub enforce_selectors_lem :
    (cfg : Config)
    → (count_given (selector_list (enforce_selectors cfg)) ≤ 1)
      × (first_non_empty (selector_list (enforce_selectors cfg))
          ≡ first_non_empty (configured_selectors cfg))
unfolding enforce_selectors first_non_empty
enforce_selectors_lem cfg =
    go cfg.permission_id cfg.model_id cfg.resource_id cfg.enforcer_id cfg.owner
  where
    go :
        (p m r e o : Text)
        → let s = enforce_selectors (record cfg {
          permission_id = p;
          model_id = m;
          resource_id = r;
          enforcer_id = e;
          owner = o;
        }) in
          (count_given (selector_list s) ≤ 1)
          × (first_non_empty (selector_list s) ≡ first_non_empty (p ∷ m ∷ r ∷ e ∷ o ∷ []))
    go (c ∷ p) m r e o = (omega arith, refl)
    go [] (c ∷ m) r e o = (omega arith, refl)
    go [] [] (c ∷ r) e o = (omega arith, refl)
    go [] [] [] (c ∷ e) o = (omega arith, refl)
    go [] [] [] [] (c ∷ o) = (omega arith, refl)
    go [] [] [] [] [] = (omega arith, refl)
