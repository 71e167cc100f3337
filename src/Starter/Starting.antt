-- ===== src/Starter/Starting.antt =====
-- starter/runtime.go and config/config.go: settings that Validate accepts start, when the servers answer.
use aisphere_kit.Base.{
  Text, codes, Bool, true, false, not, ◌&&◌, ◌||◌, List, Option, none, some, Result, ok, err, Error,
  Io, Succeeds, is_ok, is_empty, if◌then◌else◌, if_cases, IsNil, ◌++◌, ◌≡◌, refl, ◌∙◌, sym, arith,
}
use aisphere_kit.Context.{Context}
use aisphere_kit.Config.Types.{Config, FeatureConfig}
use aisphere_kit.Config.Validate.{
  database_problems, redis_problems, store_problems, problem_in, problem_of, problem_if,
  certificate_step, validate,
}
use aisphere_kit.Config.Valid.{valid_lem}
use aisphere_kit.Db.Settings.{DatabaseConfig, normalize}
use aisphere_kit.Db.Connect.{Connection}
use aisphere_kit.Db.Connect.Opening.{IsReachable, IsDuration, new_database-Succeeds}
use aisphere_kit.Cache.Connect.{RedisRuntime}
use aisphere_kit.ObjectStore.{MinioClient, MinioConfig}
use aisphere_kit.ObjectStore.Opening.{StoreAnswers, new_minio-Succeeds}
use aisphere_kit.Casdoor.Certificate.{Adapter, normalized_certificate}
use aisphere_kit.Starter.{
  Parts, Runtime, Progress, Cleanup, with_part, then_stage, metrics_stage, db_stage, cache_stage,
  s3_stage, casdoor_stage, new_casdoor, new_runtime,
}
use aisphere_kit.Metrics.{Metrics, with_defaults, collectors}
use aisphere_kit.Metrics.Registering.{AcceptsAll, new_metrics-Succeeds}
use aisphere_kit.Starter.Kit.{
  Libraries, Handle, with_metrics, with_database, with_redis, with_store, with_adapter, kit_parts,
  kit_runtime,
}
use Checks.{
  both-IsNil, passed, new_redis-Succeeds, settings_ok-valid, SameFile, RedisAnswers,
  new_checked-Succeeds, certificate_problems-first,
}
pub mod Checks

module _ {W H : Type 0} (parts : Parts W H) (features : FeatureConfig) where
  with_part-Succeeds :
      {A B : Type 0} (fs : List (Cleanup W)) (report : Error → Error) (r : Result A × W)
      (next : A → W → Result B × W)
      → Succeeds r
      → ((x : A) (w : W) → Succeeds (next x w))
      → Succeeds (with_part parts features fs report r next)
  with_part-Succeeds fs report (ok x, w) next h k = k x w
  with_part-Succeeds fs report (err e, w) next h k = absurd (ground arith)

  then_stage-Succeeds :
      (r : Result (Progress W H) × W) (stage : Progress W H → Io W (Progress W H))
      → Succeeds r
      → ((p : Progress W H) (w : W) → Succeeds (stage p w))
      → Succeeds (then_stage parts features r stage)
  then_stage-Succeeds (ok p, w) stage h k = k p w
  then_stage-Succeeds (err e, w) stage h k = absurd (ground arith)

  new_casdoor-Succeeds :
      (w : W)
      → (features.authn ≡ true → Succeeds (parts.new_checked w))
      → Succeeds (new_casdoor parts features w)
  new_casdoor-Succeeds w h =
      if_cases (λ (r : Result H × W). Succeeds r) features.authn _ _ h (λ e. refl)

  -- NewRuntime succeeds when the constructors of the parts whose features are on do.
  pub new_runtime-Succeeds :
      (rt : Runtime H) (w : W)
      → (features.metrics ≡ true → (v : W) → Succeeds (parts.new_metrics v))
      → (features.db ≡ true → (v : W) → Succeeds (parts.new_database v))
      → (features.cache ≡ true → (v : W) → Succeeds (parts.new_redis v))
      → (features.s3 ≡ true → (v : W) → Succeeds (parts.new_minio v))
      → (features.authn ≡ true → (v : W) → Succeeds (parts.new_checked v))
      → Succeeds (new_runtime parts features rt w)
  unfolding new_runtime metrics_stage db_stage cache_stage s3_stage casdoor_stage
  new_runtime-Succeeds rt w metrics db cache s3 authn =
      let P : Result (Progress W H) × W → Type 0 = λ r. Succeeds r in
      then_stage-Succeeds _ _
        (then_stage-Succeeds _ _
          (then_stage-Succeeds _ _
            (then_stage-Succeeds _ _
              (then_stage-Succeeds _ _
                (if_cases P features.metrics _ _
                  (λ on. with_part-Succeeds _ _ _ _ (metrics on w) (λ m v. refl)) (λ off. refl))
                (λ (r, fs) v.
                  if_cases P features.db _ _
                    (λ on. with_part-Succeeds fs _ _ _ (db on v) (λ d u. refl)) (λ off. refl)))
              (λ (r, fs) v.
                if_cases P features.cache _ _
                  (λ on. with_part-Succeeds fs _ _ _ (cache on v) (λ d u. refl)) (λ off. refl)))
            (λ (r, fs) v.
              if_cases P features.s3 _ _ (λ on. with_part-Succeeds fs _ _ _ (s3 on v) (λ d u. refl))
                (λ off. refl)))
          (λ (r, fs) v.
            if_cases P (features.authn || features.authz || features.audit || features.permission) _
              _
              (λ on.
                with_part-Succeeds fs _ _ _ (new_casdoor-Succeeds v (λ a. authn a v)) (λ d u. refl))
              (λ off. refl)))
        (λ (r, fs) v. refl)

-- The driver of a database that Validate finds nothing wrong with is known.
known_driver : {A : Type 0} (r : Result A) → IsNil (problem_of r) → is_ok r ≡ true
known_driver (ok d) h = refl
known_driver (err e) h = absurd (ground arith)

module _ {W G S C K B O D U X V Y : Type 0} (libraries : Libraries W G S C K B O D U X V Y)
    (ctx : Option (Context W)) (cfg : Config) where
  -- What a runtime with these settings needs, for the features that are on.
  pub record IsUp : Type 0 where
    pub metrics :
        cfg.features.metrics ≡ true
        → AcceptsAll libraries.registerer (collectors (with_defaults cfg.metrics cfg.app.name))
    pub database :
        cfg.features.db ≡ true → IsReachable libraries.drivers libraries.urls ctx cfg.database
    pub redis : cfg.features.cache ≡ true → RedisAnswers libraries.dialer ctx cfg.redis
    pub store : cfg.features.s3 ≡ true → StoreAnswers libraries.store ctx cfg.objectstore
    pub file : SameFile libraries.crypto cfg.casdoor

  -- What Validate does not check: the durations of the database, and the keys of the object store.
  pub record IsComplete : Type 0 where
    pub lifetime :
        cfg.features.db ≡ true → IsDuration libraries.drivers cfg.database.conn_max_lifetime
    pub threshold :
        cfg.features.db ≡ true → IsDuration libraries.drivers cfg.database.slow_threshold
    pub keys :
        cfg.features.s3 ≡ true
        → is_empty cfg.objectstore.access_key || is_empty cfg.objectstore.secret_key ≡ false

  with_metrics-Succeeds :
      (r : Result Metrics × W) → Succeeds r → Succeeds (with_metrics libraries ctx cfg r)
  with_metrics-Succeeds (ok m, w) h = refl
  with_metrics-Succeeds (err e, w) h = absurd (ground arith)

  with_database-Succeeds :
      (r : Result (Connection G S) × W) → Succeeds r → Succeeds (with_database libraries ctx cfg r)
  with_database-Succeeds (ok c, w) h = refl
  with_database-Succeeds (err e, w) h = absurd (ground arith)

  with_redis-Succeeds :
      (r : Result (RedisRuntime C) × W) → Succeeds r → Succeeds (with_redis libraries ctx cfg r)
  with_redis-Succeeds (ok c, w) h = refl
  with_redis-Succeeds (err e, w) h = absurd (ground arith)

  with_store-Succeeds :
      (r : Result (MinioClient K) × W) → Succeeds r → Succeeds (with_store libraries ctx cfg r)
  with_store-Succeeds (ok c, w) h = refl
  with_store-Succeeds (err e, w) h = absurd (ground arith)

  with_adapter-Succeeds :
      (r : Result Adapter × W) → Succeeds r → Succeeds (with_adapter libraries ctx cfg r)
  with_adapter-Succeeds (ok a, w) h = refl
  with_adapter-Succeeds (err e, w) h = absurd (ground arith)

  module _ (up : IsUp) (complete : IsComplete) where
    database-starts :
        cfg.features.db ≡ true
        → IsNil (database_problems cfg.database)
        → (v : W) → Succeeds ((kit_parts libraries ctx cfg).new_database v)
    unfolding kit_parts
    database-starts on h v =
        let (driver, dsn) = both-IsNil _ _ h in
        with_database-Succeeds _ (
          new_database-Succeeds libraries.drivers libraries.urls ctx cfg.database (up.database on)
            (complete.lifetime on) (complete.threshold on) (passed _ _ dsn) v
            (known_driver (normalize cfg.database) driver))

    certificate-starts :
        (w : W)
        → IsNil (certificate_step libraries.crypto cfg w).0
        → cfg.features.authn ≡ true
        → (v : W) → Succeeds ((kit_parts libraries ctx cfg).new_checked v)
    unfolding kit_parts
    certificate-starts w h on v =
        let found = rw on at h in
        with_adapter-Succeeds _ (
          new_checked-Succeeds libraries.crypto cfg.casdoor up.file w v (
            sym (
              certificate_problems-first libraries.crypto
                (normalized_certificate libraries.crypto cfg.casdoor w))
            ∙ found))

    -- Settings that Validate accepts start: when what they ask for is up, NewRuntime succeeds, whatever
    -- features are on and whatever the runtime was before its options. Beyond Validate, this takes
    -- durations of the database that can be read and both keys of the object store.
    pub kit_runtime-Starts :
        (rt : Runtime (Handle G S C K)) (w v : W)
        → (validate libraries.crypto cfg w).0 ≡ none
        → Succeeds (kit_runtime libraries ctx cfg rt v)
    unfolding kit_runtime kit_parts
    kit_runtime-Starts rt w v valid =
        let (db, cache, s3, authn, authz, permission) = valid_lem libraries.crypto cfg w valid in
        new_runtime-Succeeds (kit_parts libraries ctx cfg) cfg.features rt v
          (λ on u.
            with_metrics-Succeeds _ (
              new_metrics-Succeeds libraries.registerer cfg.metrics cfg.app.name (up.metrics on) u))
          (λ on u. database-starts on (db on) u)
          (λ on u.
            with_redis-Succeeds _
              (new_redis-Succeeds libraries.dialer ctx cfg.redis (up.redis on) u (cache on)))
          (λ on u. with_store-Succeeds _ (
            new_minio-Succeeds libraries.store ctx cfg.objectstore (up.store on) u
              (settings_ok-valid cfg.objectstore (s3 on) (complete.keys on))))
          (λ on u. certificate-starts w (authn on) on u)
