-- ===== src/Starter/Kit/Whole.antt =====
-- starter/runtime.go: a runtime of the kit's own parts leaves nothing open.
use aisphere_kit.Base.{
  Text, Bool, true, false, Option, Result, ok, err, pure, and_then, OneMore, if_either, ◌≡◌, refl,
  ◌∙◌, ℕ,
}
use aisphere_kit.Context.{Context}
use aisphere_kit.Config.Types.{Config}
use aisphere_kit.Metrics.{Metrics, Collector}
use aisphere_kit.Metrics.Registering.{new_metrics-live}
use aisphere_kit.Db.Connect.{Connection, close_connection}
use aisphere_kit.Db.Connect.Pools.{PoolCount, new_database-OneMore}
use aisphere_kit.Cache.Connect.{RedisRuntime, close_redis}
use aisphere_kit.Cache.Connect.Clients.{ClientCount, new_redis-OneMore}
use aisphere_kit.ObjectStore
use aisphere_kit.Casdoor.Settings
use aisphere_kit.Casdoor.Certificate
use aisphere_kit.Starter.{Runtime}
use aisphere_kit.Starter.Leaks.{Count, Opens, NothingLeft, new_runtime-NothingLeft}
use aisphere_kit.Starter.Kit.{
  Libraries, Handle, with_metrics, with_database, with_redis, with_store, with_adapter, kept,
  kit_parts, kit_runtime,
}

module _ {W G S C K B O D U X V Y : Type 0} (libraries : Libraries W G S C K B O D U X V Y)
    (live : W → ℕ) where
  open libraries use {drivers, urls, dialer, crypto}

  -- `live` counts the connection pools that GORM handed over and the clients of Redis that were made, and
  -- that were not closed; the other libraries neither make nor close one.
  pub record KitLaws : Type 0 where
    pub pools : PoolCount drivers live
    pub clients : ClientCount dialer live
    pub register_keeps :
        (c : Collector) (w : W) → live (libraries.registerer.register c w).1 ≡ live w
    pub store_keeps :
        (endpoint access secret token : Text) (ssl : Bool) (region : Text) (w : W)
        → live (libraries.store.new endpoint access secret token ssl region w).1 ≡ live w
    pub exists_keeps :
        (k : K) (ctx : Option (Context W)) (bucket : Text) (w : W)
        → live (libraries.store.bucket_exists k ctx bucket w).1 ≡ live w
    pub make_keeps :
        (k : K) (ctx : Option (Context W)) (bucket region : Text) (w : W)
        → live (libraries.store.make_bucket k ctx bucket region w).1 ≡ live w
    pub file_keeps : (file : Text) (w : W) → live (crypto.read_file file w).1 ≡ live w

  module _ (laws : KitLaws) where
    -- A function that neither opens nor closes anything.
    abbrev pub Keeps : {A : Type 0} → (W → Result A × W) → Type 0
    Keeps m = (w : W) → live (m w).1 ≡ live w

    and_then-Keeps :
        {A Z : Type 0} (r : Result A × W) (f : A → W → Result Z × W)
        → ((a : A) → Keeps (f a))
        → live (and_then f r).1 ≡ live r.1
    and_then-Keeps (ok a, w) f h = h a w
    and_then-Keeps (err e, w) f h = refl

    checked_bucket-live :
        (bucket : Text) (r : Result Bool × W)
        → live (ObjectStore.checked_bucket libraries.store bucket r).1 ≡ live r.1
    checked_bucket-live bucket (ok b, w) = refl
    checked_bucket-live bucket (err e, w) = refl

    made_bucket-live :
        (bucket : Text) (r : Result (Unit {0}) × W)
        → live (ObjectStore.made_bucket libraries.store bucket r).1 ≡ live r.1
    made_bucket-live bucket (ok u, w) = refl
    made_bucket-live bucket (err e, w) = refl

    created-live :
        (c : ObjectStore.MinioConfig) (r : Result K × W)
        → live (ObjectStore.created libraries.store c r).1 ≡ live r.1
    created-live c (ok k, w) = refl
    created-live c (err e, w) = refl

    module _ (ctx : Option (Context W)) where
      bucket_exists-Keeps :
          (m : ObjectStore.MinioClient K) → Keeps (ObjectStore.bucket_exists libraries.store m ctx)
      unfolding ObjectStore.bucket_exists
      bucket_exists-Keeps m w =
          checked_bucket-live m.cfg.bucket _ ∙ laws.exists_keeps m.client ctx m.cfg.bucket w

      make_missing-Keeps :
          (m : ObjectStore.MinioClient K) (there : Bool)
          → Keeps (ObjectStore.make_missing libraries.store m ctx there)
      make_missing-Keeps m true w = refl
      make_missing-Keeps m false w =
          made_bucket-live m.cfg.bucket _ ∙ laws.make_keeps m.client ctx m.cfg.bucket m.cfg.region w

      ensure_bucket-Keeps :
          (m : ObjectStore.MinioClient K) → Keeps (ObjectStore.ensure_bucket libraries.store m ctx)
      unfolding ObjectStore.ensure_bucket
      ensure_bucket-Keeps m w =
          and_then-Keeps _ (ObjectStore.make_missing libraries.store m ctx) (make_missing-Keeps m)
          ∙ bucket_exists-Keeps m w

      ensure_wanted-Keeps :
          (m : ObjectStore.MinioClient K) (there : Bool)
          → Keeps (ObjectStore.ensure_wanted libraries.store m ctx there)
      ensure_wanted-Keeps m there w =
          if_either (λ (r : Result (ObjectStore.MinioClient K) × W). live r.1 ≡ live w) _ _
            (ok m, w)
            (and_then-Keeps (ObjectStore.ensure_bucket libraries.store m ctx w) _ (λ u v. refl)
              ∙ ensure_bucket-Keeps m w)
            refl

      with_bucket-Keeps :
          (m : ObjectStore.MinioClient K) → Keeps (ObjectStore.with_bucket libraries.store ctx m)
      with_bucket-Keeps m w =
          and_then-Keeps _ (ObjectStore.ensure_wanted libraries.store m ctx) (ensure_wanted-Keeps m)
          ∙ bucket_exists-Keeps m w

      create-Keeps :
          (c : ObjectStore.MinioConfig) → Keeps (ObjectStore.create libraries.store ctx c)
      create-Keeps c w =
          and_then-Keeps _ (ObjectStore.with_bucket libraries.store ctx) with_bucket-Keeps
          ∙ created-live c _
          ∙ laws.store_keeps c.endpoint c.access_key c.secret_key c.session_token c.use_ssl c.region
              w

      pub new_minio-Keeps :
          (c : ObjectStore.MinioConfig) → Keeps (ObjectStore.new_minio libraries.store ctx c)
      unfolding ObjectStore.new_minio
      new_minio-Keeps c w = and_then-Keeps (ObjectStore.settings_ok c, w) _ (λ u. create-Keeps c)

    file_text-live :
        (file : Text) (r : Result Text × W)
        → live (Certificate.file_text crypto file r).1 ≡ live r.1
    file_text-live file (ok b, w) = refl
    file_text-live file (err e, w) = refl

    certificate_text-Keeps : (c : Settings.Config) → Keeps (Certificate.certificate_text crypto c)
    certificate_text-Keeps c w =
        if_either (λ (r : Result Text × W). live r.1 ≡ live w) _ _ _
          (file_text-live c.certificate_file _ ∙ laws.file_keeps _ w) refl

    pub normalized_certificate-Keeps :
        (c : Settings.Config) → Keeps (Certificate.normalized_certificate crypto c)
    unfolding Certificate.normalized_certificate
    normalized_certificate-Keeps c w =
        and_then-Keeps (Certificate.certificate_text crypto c w) _ (λ text v. refl)
        ∙ certificate_text-Keeps c w

    pub new_adapter-Keeps :
        (c : Settings.Config) (required provided : Bool)
        → Keeps (Certificate.new_adapter crypto c required provided)
    unfolding Certificate.new_adapter
    new_adapter-Keeps c required provided w =
        if_either (λ (r : Result Certificate.Adapter × W). live r.1 ≡ live w)
          (Certificate.wants_certificate crypto c required provided) _ _
          (and_then-Keeps (Certificate.normalized_certificate crypto c w)
              (λ cert. pure (Certificate.made crypto c cert)) (λ cert v. refl)
            ∙ normalized_certificate-Keeps c w)
          refl

    pub new_checked-Keeps : (c : Settings.Config) → Keeps (Certificate.new_checked crypto c)
    unfolding Certificate.new_checked
    new_checked-Keeps c w = new_adapter-Keeps c true true w

    module _ (ctx : Option (Context W)) (cfg : Config) where
      pub with_metrics-live :
          (r : Result Metrics × W) → live (with_metrics libraries ctx cfg r).1 ≡ live r.1
      with_metrics-live (ok m, w) = refl
      with_metrics-live (err e, w) = refl

      pub with_store-live :
          (r : Result (ObjectStore.MinioClient K) × W)
          → live (with_store libraries ctx cfg r).1 ≡ live r.1
      with_store-live (ok m, w) = refl
      with_store-live (err e, w) = refl

      pub with_adapter-live :
          (r : Result Certificate.Adapter × W)
          → live (with_adapter libraries ctx cfg r).1 ≡ live r.1
      with_adapter-live (ok a, w) = refl
      with_adapter-live (err e, w) = refl

      pub kept-live :
          (r : Result Certificate.Adapter × W) → live (kept libraries ctx cfg r).1 ≡ live r.1
      kept-live (ok a, w) = refl
      kept-live (err e, w) = refl

      pub with_database-Opens :
          (w : W) (r : Result (Connection G S) × W)
          → OneMore live (live w) r
          → Opens (kit_parts libraries ctx cfg) live w (with_database libraries ctx cfg r)
      unfolding kit_parts close_connection
      with_database-Opens w (ok c, v) h = (h, λ u n e. laws.pools.close_closes c.sql u n e)
      with_database-Opens w (err e, v) h = h

      pub with_redis-Opens :
          (w : W) (r : Result (RedisRuntime C) × W)
          → OneMore live (live w) r
          → Opens (kit_parts libraries ctx cfg) live w (with_redis libraries ctx cfg r)
      unfolding kit_parts close_redis
      with_redis-Opens w (ok r, v) h = (h, λ u n e. laws.clients.close_closes r.client u n e)
      with_redis-Opens w (err e, v) h = h

      -- `live` as the count that the stages of NewRuntime are followed by.
      abbrev pub kit_count : Count (kit_parts libraries ctx cfg)
      unfolding kit_parts
      kit_count = record {
        live = live;
        of_metrics = λ w.
            with_metrics-live _
            ∙ new_metrics-live libraries.registerer live laws.register_keeps cfg.metrics
                cfg.app.name w;
        of_database = λ w.
            with_database-Opens w _
              (new_database-OneMore drivers live laws.pools urls ctx cfg.database w);
        of_redis =
            λ w. with_redis-Opens w _ (new_redis-OneMore dialer live laws.clients ctx cfg.redis w);
        of_minio = λ w. with_store-live _ ∙ new_minio-Keeps ctx cfg.objectstore w;
        of_checked = λ w. with_adapter-live _ ∙ new_checked-Keeps cfg.casdoor w;
        of_adapter = λ w. kept-live _ ∙ new_adapter-Keeps cfg.casdoor false false w;
      }

      -- A runtime that the kit builds from its settings leaves no connection pool that it was handed and
      -- no Redis client that it made open: on every path that fails, as many are open afterwards as
      -- before, and when it succeeds as many are open as before once the cleanup that it returns has run.
      pub kit_runtime-NothingLeft :
          (rt : Runtime (Handle G S C K)) (w : W)
          → NothingLeft
              (kit_parts libraries ctx cfg)
              kit_count
              cfg.features
              (live w)
              (kit_runtime libraries ctx cfg rt w)
      unfolding kit_runtime
      kit_runtime-NothingLeft rt w =
          new_runtime-NothingLeft (kit_parts libraries ctx cfg) kit_count cfg.features rt w
