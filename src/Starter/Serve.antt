-- ===== src/Starter/Serve.antt =====
-- starter/serve.go: a runtime from configuration files, and a cleanup that is given up after a time.
use aisphere_kit.Base.{
  Text, codes, Option, none, some, Result, ok, err, Error, sentinel, Sentinel, is_empty, List, [],
  ◌∷◌, if◌then◌else◌, Io,
}
use aisphere_kit.Context.{Context, Race, finished, done_before, done_after}
use aisphere_kit.Config.Types.{Config}
use aisphere_kit.Config.Load.{Formats, load}
use aisphere_kit.Starter.{Cleanup, Progress, Runtime}
use aisphere_kit.Starter.Kit.{Libraries, Handle, kit_runtime}
pub mod Whole

module _ {W G S C K B O D U X V Y : Type 0} (libraries : Libraries W G S C K B O D U X V Y)
    (formats : Formats W) where
  abbrev pub value_or : Text → Text × W → Text × W
  value_or fallback (v, w) = (if is_empty v then fallback else v, w)

  unfoldable pub env_or : Text → Text → W → Text × W
  env_or k fallback w = value_or fallback (formats.getenv k w)

  abbrev pub chosen_paths : List Text → W → List Text × W
  chosen_paths [] w =
      let (path, v) = env_or (codes "AISPHERE_CONFIG") (codes "configs/config.yaml") w in
      (path ∷ [], v)
  chosen_paths (p ∷ ps) w = (p ∷ ps, w)

  abbrev pub load_chosen : List Text × W → (Option Config × Option Error) × W
  load_chosen (paths, w) = load libraries.crypto formats paths w

  unfoldable pub load_config : List Text → W → (Option Config × Option Error) × W
  unfolding env_or
  load_config paths w = load_chosen (chosen_paths paths w)

  abbrev pub Served : Type 0
  Served = Config × Progress W (Handle G S C K)

  abbrev pub served : Config → Result (Progress W (Handle G S C K)) × W → Result Served × W
  served cfg (ok p, w) = (ok (cfg, p), w)
  served cfg (err e, w) = (err e, w)

  -- Without settings and without an error, which Load does not answer, the source would stop at the nil
  -- pointer; `absent` is what it is taken to do.
  abbrev pub with_config :
      Error
      → Option (Context W)
      → Runtime (Handle G S C K)
      → (Option Config × Option Error) × W
      → Result Served × W
  with_config absent ctx rt ((cfg, some e), w) = (err e, w)
  with_config absent ctx rt ((none, none), w) = (err absent, w)
  with_config absent ctx rt ((some cfg, none), w) = served cfg (kit_runtime libraries ctx cfg rt w)

  unfoldable pub new_runtime_from_config :
      Error → Option (Context W) → List Text → Runtime (Handle G S C K) → Io W Served
  unfolding load_config
  new_runtime_from_config absent ctx paths rt w = with_config absent ctx rt (load_config paths w)

-- What the select between the cleanup and the timer takes; the cleanup goes on behind it.
module _ {W : Type 0} where
  abbrev timed : Cleanup W → Race × W → Option Error × W
  timed fn (finished, w) = fn w
  timed fn (done_before e, w) = (some (sentinel Sentinel.deadline_exceeded), w)
  timed fn (done_after e, w) = (some (sentinel Sentinel.deadline_exceeded), (fn w).1)

  -- `race` is the select between the goroutine that runs the cleanup and time.After.
  unfoldable pub cleanup_with_timeout : (W → Race × W) → Option (Cleanup W) → W → Option Error × W
  cleanup_with_timeout race none w = (none, w)
  cleanup_with_timeout race (some fn) w = timed fn (race w)
