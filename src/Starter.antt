-- ===== src/Starter.antt =====
-- starter/cleanup.go and starter/runtime.go: the stack of cleanups, and the runtime that is built from
-- the features that are switched on. How each part is constructed is code of the other packages and of
-- the libraries that they call: a parameter of the model.
use aisphere_kit.Base.{
  Text, codes, Bool, true, false, ◌||◌, List, [], ◌∷◌, ◌++◌, Option, none, some, Result, ok, err,
  Io, Error, wrapped, if◌then◌else◌, join_errors,
}
use aisphere_kit.Config.Types.{FeatureConfig}
mod Tests
pub mod Kit
pub mod Sample
pub mod Starting
pub mod Serve
pub mod Leaks

abbrev pub Cleanup : Type 0 → Type 0
Cleanup W = W → Option Error × W

abbrev push_error : Option Error → List Error → List Error
push_error none es = es
push_error (some e) es = e ∷ es

module _ {W : Type 0} where
  -- CleanupStack.Add of a function that is not nil
  unfoldable pub add : List (Cleanup W) → Cleanup W → List (Cleanup W)
  add fs f = fs ++ (f ∷ [])

  -- The loop of CleanupStack.Close, from the last function to the first, with the errors in the order
  -- in which they occur.
  unfoldable pub run : List (Cleanup W) → W → List Error × W
  run [] w = ([], w)
  run (f ∷ fs) w = let (es, w₁) = run fs w in let (e, w₂) = f w₁ in (es ++ push_error e [], w₂)

  unfoldable pub close : List (Cleanup W) → Cleanup W
  close fs w = let (es, v) = run fs w in (join_errors es, v)

-- The constructors that NewRuntime calls. A database and a Redis runtime come with their Close; what
-- NewRuntime keeps of a part is its handle, a value of the type `H`.
pub record Parts (W H : Type 0) : Type 0 where
  pub new_metrics : Io W H
  pub new_database : Io W (H × Cleanup W)
  pub new_redis : Io W (H × Cleanup W)
  pub new_tx : H → H
  pub new_session : H → H
  pub new_minio : Io W H
  pub new_checked : Io W H
  pub new_adapter : W → H × W
  pub new_guard : Option H → Option H → H

-- The fields DB and SQL repeat Database, and RedisRuntime repeats Redis.
pub record Runtime (H : Type 0) : Type 0 where
  pub database : Option H
  pub redis : Option H
  pub s3 : Option H
  pub casdoor : Option H
  pub authn : Option H
  pub authz : Option H
  pub audit : Option H
  pub access : Option H
  pub session : Option H
  pub tx : Option H
  pub permission : Option H
  pub metrics : Option H

-- The runtime so far, and the stack of its cleanups.
abbrev pub Progress : Type 0 → Type 0 → Type 0
Progress W H = Runtime H × List (Cleanup W)

abbrev pub empty_runtime : {H : Type 0} → Runtime H
empty_runtime = record {
  database = none;
  redis = none;
  s3 = none;
  casdoor = none;
  authn = none;
  authz = none;
  audit = none;
  access = none;
  session = none;
  tx = none;
  permission = none;
  metrics = none;
}

module _ {W H : Type 0} (parts : Parts W H) (features : FeatureConfig) where
  -- `_ = cleanups.Close(); return nil, nil, err`
  abbrev pub abandon : {A : Type 0} → List (Cleanup W) → Error → W → Result A × W
  abandon fs e w = (err e, (close fs w).1)

  -- A part is constructed, or all that was opened before it is closed.
  abbrev pub with_part :
      {A B : Type 0}
      → List (Cleanup W)
      → (Error → Error)
      → Result A × W
      → (A → W → Result B × W)
      → Result B × W
  with_part fs report (ok x, w) next = next x w
  with_part fs report (err e, w) next = abandon fs (report e) w

  unfoldable pub metrics_stage : Progress W H → Io W (Progress W H)
  metrics_stage (rt, fs) w =
      if features.metrics
      then with_part fs (λ e. wrapped (codes "init metrics: ") e []) (parts.new_metrics w)
          (λ m v. (ok (record rt { metrics = some m }, fs), v))
      else (ok (rt, fs), w)

  unfoldable pub db_stage : Progress W H → Io W (Progress W H)
  db_stage (rt, fs) w =
      if features.db
      then with_part fs (λ e. e) (parts.new_database w)
          (λ (d, shut) v.
            (ok (record rt { database = some d; tx = some (parts.new_tx d) }, add fs shut), v))
      else (ok (rt, fs), w)

  abbrev session_of : Option H → H → Option H
  session_of before r = if features.session then some (parts.new_session r) else before

  unfoldable pub cache_stage : Progress W H → Io W (Progress W H)
  cache_stage (rt, fs) w =
      if features.cache
      then with_part fs (λ e. e) (parts.new_redis w)
          (λ (r, shut) v.
            (ok (record rt { redis = some r; session = session_of rt.session r }, add fs shut), v))
      else (ok (rt, fs), w)

  unfoldable pub s3_stage : Progress W H → Io W (Progress W H)
  s3_stage (rt, fs) w =
      if features.s3
      then with_part fs (λ e. e) (parts.new_minio w)
          (λ s v. (ok (record rt { s3 = some s }, fs), v))
      else (ok (rt, fs), w)

  abbrev with_casdoor : Runtime H → H → Runtime H
  with_casdoor rt c = record rt {
    casdoor = some c;
    authn = some c;
    authz = some c;
    audit = some c;
    permission = if features.permission then some c else rt.permission;
  }

  -- casdoor.New does not fail.
  abbrev pub new_casdoor : Io W H
  new_casdoor w =
      if features.authn
      then parts.new_checked w
      else (ok (parts.new_adapter w).0, (parts.new_adapter w).1)

  unfoldable pub casdoor_stage : Progress W H → Io W (Progress W H)
  casdoor_stage (rt, fs) w =
      if features.authn || features.authz || features.audit || features.permission
      then with_part fs (λ e. wrapped (codes "init casdoor: ") e []) (new_casdoor w)
          (λ c v. (ok (with_casdoor rt c, fs), v))
      else (ok (rt, fs), w)

  -- What follows a stage: nothing, where it has returned its error.
  abbrev pub then_stage :
      Result (Progress W H) × W → (Progress W H → Io W (Progress W H)) → Result (Progress W H) × W
  then_stage (ok p, w) stage = stage p w
  then_stage (err e, w) stage = (err e, w)

  -- The guard is made of what the runtime has by then.
  abbrev pub access_stage : Progress W H → Io W (Progress W H)
  access_stage (rt, fs) w =
      (ok (record rt { access = some (parts.new_guard rt.authz rt.audit) }, fs), w)

  -- `rt` is the runtime after the options were applied to it.
  unfoldable pub new_runtime : Runtime H → Io W (Progress W H)
  new_runtime rt w =
      then_stage
        (then_stage
          (then_stage (then_stage (then_stage (metrics_stage (rt, []) w) db_stage) cache_stage)
            s3_stage)
          casdoor_stage)
        access_stage
