-- ===== src/Config/Load/Checked.antt =====
-- config/config.go, Load: settings that are loaded without an error have passed Validate.
use aisphere_kit.Base.{
  Text, codes, false, List, ◌∷◌, [], Option, none, some, Result, ok, err, Error, is_empty,
  if◌then◌else◌, ◌≡◌, refl,
}
use aisphere_kit.Casdoor.Certificate.{Crypto}
use aisphere_kit.Config.Types.{Config}
use aisphere_kit.Config.Tree.{Table}
use aisphere_kit.Config.Validate.{validate}
use aisphere_kit.Config.Load.{
  Formats, with_casdoor_defaults, beside, finish, decoded, with_env, loaded, load,
}

module _ {W X : Type 0} (crypto : Crypto W X) (formats : Formats W) where
  -- Settings that passed Validate in some world, and have a timeout and a scope for Casdoor.
  abbrev pub IsChecked : Config → Type 0
  IsChecked cfg =
      ((w : W) × ((validate crypto cfg w).0 ≡ none))
      × (is_empty cfg.casdoor.http_timeout ≡ false)
      × (is_empty cfg.casdoor.default_scope ≡ false)

  -- What Load answers: an error, or settings that are checked.
  abbrev pub Checked : Option Config × Option Error → Type 0
  Checked (c, some e) = Unit
  Checked (none, none) = ⊥
  Checked (some cfg, none) = IsChecked cfg

  default-given : (s t : Text) → is_empty t ≡ false → is_empty (if is_empty s then t else s) ≡ false
  default-given [] t h = h
  default-given (c ∷ s) t h = refl

  beside-Checked :
      (cfg : Config) (w : W) (r : Option Error × W)
      → (validate crypto (with_casdoor_defaults cfg) w).0 ≡ r.0
      → Checked (beside crypto formats (with_casdoor_defaults cfg) r).0
  unfolding codes
  beside-Checked cfg w (some e, v) h = tt
  beside-Checked cfg w (none, v) h = (
    (w, h),
    default-given cfg.casdoor.http_timeout (codes "10s") refl,
    default-given cfg.casdoor.default_scope (codes "openid profile email") refl,
  )

  finish-Checked : (r : Result Config) (w : W) → Checked (finish crypto formats r w).0
  finish-Checked (err e) w = tt
  finish-Checked (ok cfg) w =
      beside-Checked cfg w (validate crypto (with_casdoor_defaults cfg) w) refl

  decoded-Checked : (r : Table × W) → Checked (decoded crypto formats r).0
  decoded-Checked (tree, w) = finish-Checked (formats.decode tree) w

  loaded-Checked : (r : Result Table × W) → Checked (loaded crypto formats r).0
  loaded-Checked (err e, w) = tt
  loaded-Checked (ok tree, w) = decoded-Checked (with_env crypto formats tree (formats.environ w))

  -- Load answers an error, or settings that passed Validate and have a timeout and a scope for Casdoor:
  -- never neither, whatever the files, the environment and the decoder say.
  pub load-Checked : (paths : List Text) (w : W) → Checked (load crypto formats paths w).0
  unfolding load
  load-Checked paths w = loaded-Checked _
