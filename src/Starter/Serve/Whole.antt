-- ===== src/Starter/Serve/Whole.antt =====
-- starter/serve.go: what NewRuntimeFromConfig promises, from the files to the running parts.
use aisphere_kit.Base.{
  Text, List, Option, none, some, Result, ok, err, Error, Succeeds, ◌≡◌, refl, sym, arith, ℕ,
}
use mathlib.Core.Path.{subst}
use aisphere_kit.Context.{Context}
use aisphere_kit.Casdoor.Certificate
use aisphere_kit.Config.Types.{Config}
use aisphere_kit.Config.Load.{Formats}
use aisphere_kit.Config.Load.Checked.{Checked, load-Checked}
use aisphere_kit.Starter.{Runtime, Progress, close}
use aisphere_kit.Starter.Kit.{Libraries, Handle, kit_runtime}
use aisphere_kit.Starter.Kit.Whole.{KitLaws}
use aisphere_kit.Starter.Starting.{IsUp, IsComplete, kit_runtime-Starts}
use aisphere_kit.Starter.Serve.{
  chosen_paths, load_chosen, load_config, Served, served, with_config, new_runtime_from_config,
}

module _ {W G S C K B O D U X V Y : Type 0} (libraries : Libraries W G S C K B O D U X V Y)
    (formats : Formats W) (absent : Error) (ctx : Option (Context W)) where
  load_chosen-Checked :
      (r : List Text × W) → Checked libraries.crypto formats (load_chosen libraries formats r).0
  load_chosen-Checked (paths, w) = load-Checked libraries.crypto formats paths w

  load_config-Checked :
      (paths : List Text) (w : W)
      → Checked libraries.crypto formats (load_config libraries formats paths w).0
  unfolding load_config
  load_config-Checked paths w = load_chosen-Checked (chosen_paths libraries formats paths w)

  served-Succeeds :
      (cfg : Config) (r : Result (Progress W (Handle G S C K)) × W)
      → Succeeds r
      → Succeeds (served libraries formats cfg r)
  served-Succeeds cfg (ok p, w) h = refl
  served-Succeeds cfg (err e, w) h = absurd (ground arith)

  with_config-Succeeds :
      (rt : Runtime (Handle G S C K)) (cfg : Config) (r : (Option Config × Option Error) × W)
      → IsUp libraries ctx cfg
      → IsComplete libraries ctx cfg
      → r.0 ≡ (some cfg, none)
      → Checked libraries.crypto formats (some cfg, none)
      → Succeeds (with_config libraries formats absent ctx rt r)
  with_config-Succeeds rt cfg (o, w) up complete e ((v, valid), timeout, scope) =
      subst (λ p. Succeeds (with_config libraries formats absent ctx rt (p, w))) (sym e)
        (served-Succeeds cfg (kit_runtime libraries ctx cfg rt w)
          (kit_runtime-Starts libraries ctx cfg up complete rt v w valid))

  -- NewRuntimeFromConfig succeeds when the settings load without an error, what they ask for is up and
  -- they are complete. Of the parts whose features are on: the database of the settings can be opened and
  -- pinged, and looked for and created where the settings ask for that and name it; the Redis of the
  -- settings answers the first ping; the object store of the settings can be opened and tells of the
  -- bucket, and makes it where the settings ask for that; the registerer of the metrics refuses none of
  -- the four collectors; the certificate file says the same at every reading; and, which Load does not
  -- check, the durations of the database can be read and both keys of the object store are given.
  pub from_config-Starts :
      (rt : Runtime (Handle G S C K)) (paths : List Text) (w : W) (cfg : Config)
      → (load_config libraries formats paths w).0 ≡ (some cfg, none)
      → IsUp libraries ctx cfg
      → IsComplete libraries ctx cfg
      → Succeeds (new_runtime_from_config libraries formats absent ctx paths rt w)
  unfolding new_runtime_from_config
  from_config-Starts rt paths w cfg e up complete =
      with_config-Succeeds rt cfg (load_config libraries formats paths w) up complete e
        (subst (λ p. Checked libraries.crypto formats p) e (load_config-Checked paths w))

  module _ (live : W → ℕ) (laws : KitLaws libraries live) where
    -- The process opens and closes nothing by itself.
    pub record Quiet : Type 0 where
      pub environ_keeps : (w : W) → live (formats.environ w).1 ≡ live w
      pub getenv_keeps : (k : Text) (w : W) → live (formats.getenv k w).1 ≡ live w

    -- What is open after a failure, and after a success and the cleanup.
    abbrev pub Restored : ℕ → Result (Served libraries formats) × W → Type 0
    Restored n (ok (cfg, (rt, fs)), w) = live (close fs w).1 ≡ n
    Restored n (err e, w) = live w ≡ n
