-- ===== src/Health.antt =====
-- health/health.go: whether a service lives and is ready.
use aisphere_kit.Base.{
  Text, codes, Bool, true, false, List, [], ◌∷◌, ◌++◌, Option, none, some, Result, ok, err, Io,
  Error, plain, text_of, is_empty, if◌then◌else◌, ◌*◌,
}
use aisphere_kit.Base.Clock.{ℤ, pos, Time, Clock, time_sub, second}
use aisphere_kit.Context.{Context}
pub mod Readiness

-- The type Result of the package; the error and the duration are empty where the source leaves them out.
pub record Health : Type 0 where
  pub name : Text
  pub ok : Bool
  pub error : Text
  pub duration : Text

-- The parts of a runtime that Check asks: the drivers of its databases, and what asks a part. `timeout`
-- is the one that the settings give, which config.ParseDurationOr reads.
pub record Checked (W : Type 0) : Type 0 where
  pub timeout : ℤ
  pub database_driver : Option Text
  pub sql : Option (Text × (Context W → Io W (Unit {0})))
  pub redis : Option (Context W → Io W (Unit {0}))
  pub s3 : Option (Context W → Io W Bool)
  pub casdoor : Option (Context W → Io W (Unit {0}))

abbrev pub nil_runtime : List Health
nil_runtime =
    record { name = codes "runtime"; ok = false; error = codes "runtime is nil"; duration = [] }
    ∷ []

-- The name of the database: its driver, where it says one.
abbrev pub database_name : Option Text → Text → Text
database_name none driver = if is_empty driver then codes "database" else driver
database_name (some d) driver =
    if is_empty d then (if is_empty driver then codes "database" else driver) else d

abbrev pub outcome : {A : Type 0} → Text → Text → Result A → Health
outcome name d (err e) = record { name = name; ok = false; error = text_of e; duration = d }
outcome name d (ok a) = record { name = name; ok = true; error = []; duration = d }

unfoldable pub is_healthy : List Health → Option Error
is_healthy [] = none
is_healthy (r ∷ rs) =
    let rest = is_healthy rs in
    if r.ok then rest else some (plain (r.name ++ (codes " unhealthy: " ++ r.error)))

module _ {W : Type 0} (clock : Clock W) (show : ℤ → Text) where
  abbrev finished : {A : Type 0} → Text → Time → Result A → Time × W → Health × W
  finished name started r (now, w) = (outcome name (show (time_sub now started)) r, w)

  abbrev asked : {A : Type 0} → Text → Time → Result A × W → Health × W
  asked name started (r, w) = finished name started r (clock.now w)

  -- The function result, which measures how long the part takes.
  abbrev pub result : {A : Type 0} → Text → Io W A → W → Health × W
  result name fn w = let (started, v) = clock.now w in asked name started (fn v)

  abbrev pub collected : List Health → Health × W → List Health × W
  collected out (r, w) = (out ++ (r ∷ []), w)

  abbrev pub ask_sql :
      Context W
      → Option Text
      → Option (Text × (Context W → Io W (Unit {0})))
      → List Health × W
      → List Health × W
  ask_sql ctx d none (out, w) = (out, w)
  ask_sql ctx d (some (driver, ping)) (out, w) =
      collected out (result (database_name d driver) (ping ctx) w)

  abbrev pub ask :
      {A : Type 0}
      → Text
      → Context W
      → Option (Context W → Io W A)
      → List Health × W
      → List Health × W
  ask name ctx none (out, w) = (out, w)
  ask name ctx (some ping) (out, w) = collected out (result name (ping ctx) w)

  abbrev pub ask_all : Context W → Checked W → List Health × W → List Health × W
  ask_all ctx rt r = ask (codes "casdoor") ctx rt.casdoor (
      ask (codes "objectstore") ctx rt.s3
        (ask (codes "redis") ctx rt.redis (ask_sql ctx rt.database_driver rt.sql r)))

  -- `with_timeout` is context.WithTimeout.
  unfoldable pub check :
      (Context W → ℤ → Context W) → Context W → Option (Checked W) → W → List Health × W
  check with_timeout ctx none w = (nil_runtime, w)
  check with_timeout ctx (some rt) w = ask_all (with_timeout ctx rt.timeout) rt ([], w)

unfoldable pub live : {R : Type 0} → Option R → List Health
live none = nil_runtime
live (some rt) = record { name = codes "runtime"; ok = true; error = []; duration = [] } ∷ []
