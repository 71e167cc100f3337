-- ===== src/Starter/Kit.antt =====
-- starter/runtime.go: the parts of a runtime as the packages of the kit construct them, from the
-- settings of the service.
use aisphere_kit.Base.{Text, Option, none, some, Result, ok, err, Io, and_then}
use aisphere_kit.Context.{Context}
use aisphere_kit.Config.Types.{Config}
use aisphere_kit.Metrics.{Metrics, Registerer, new_metrics}
use aisphere_kit.Db.Dsn.{Urls}
use aisphere_kit.Db.Connect.{Drivers, Connection, new_database, close_connection}
use aisphere_kit.Cache.Connect.{Dialer, RedisRuntime, new_redis, close_redis}
use aisphere_kit.ObjectStore.{Library, MinioClient, new_minio}
use aisphere_kit.Casdoor.Certificate.{Crypto, Adapter, new_checked, new_unchecked}
use aisphere_kit.Starter.{Parts, Runtime, Progress, Cleanup, new_runtime}
pub mod Whole

-- What a field of the runtime holds. `nil_adapter` is what
-- casdoor.New answers where the adapter could not be made.
mutual
  pub data Handle (G S C K : Type 0) : Type 0 where
    metrics : Metrics → Handle G S C K
    database : Connection G S → Handle G S C K
    tx_manager : Handle G S C K → Handle G S C K
    redis : RedisRuntime C → Handle G S C K
    session_manager : Handle G S C K → Handle G S C K
    store : MinioClient K → Handle G S C K
    adapter : Adapter → Handle G S C K
    nil_adapter : Handle G S C K
    guard : Interface G S C K → Interface G S C K → Handle G S C K

  -- An authorizer or a recorder of the guard, which may be nil.
  pub data Interface (G S C K : Type 0) : Type 0 where
    absent : Interface G S C K
    present : Handle G S C K → Interface G S C K

abbrev interface_of : {G S C K : Type 0} → Option (Handle G S C K) → Interface G S C K
interface_of none = absent
interface_of (some h) = present h

-- The libraries below the kit.
pub record Libraries (W G S C K B O D U X V Y : Type 0) : Type 0 where
  pub registerer : Registerer W
  pub drivers : Drivers W G S
  pub urls : Urls V Y
  pub dialer : Dialer W C
  pub store : Library W K B O D U
  pub crypto : Crypto W X

module _ {W G S C K B O D U X V Y : Type 0} (libraries : Libraries W G S C K B O D U X V Y)
    (ctx : Option (Context W)) (cfg : Config) where
  open libraries use {drivers, urls, dialer, crypto}

  abbrev H : Type 0
  H = Handle G S C K

  abbrev pub with_metrics : Result Metrics × W → Result H × W
  with_metrics (ok m, w) = (ok (metrics m), w)
  with_metrics (err e, w) = (err e, w)

  -- `cleanups.Add(sqldb.Close)`
  abbrev pub with_database : Result (Connection G S) × W → Result (H × Cleanup W) × W
  with_database (ok c, w) = (ok (database c, close_connection drivers (some c)), w)
  with_database (err e, w) = (err e, w)

  abbrev pub with_redis : Result (RedisRuntime C) × W → Result (H × Cleanup W) × W
  with_redis (ok r, w) = (ok (redis r, close_redis dialer (some r)), w)
  with_redis (err e, w) = (err e, w)

  abbrev pub with_store : Result (MinioClient K) × W → Result H × W
  with_store (ok m, w) = (ok (store m), w)
  with_store (err e, w) = (err e, w)

  abbrev pub with_adapter : Result Adapter × W → Result H × W
  with_adapter (ok a, w) = (ok (adapter a), w)
  with_adapter (err e, w) = (err e, w)

  abbrev pub kept : Result Adapter × W → H × W
  kept (ok a, w) = (adapter a, w)
  kept (err e, w) = (nil_adapter, w)

  -- What NewRuntime is built from, for these settings.
  unfoldable pub kit_parts : Parts W (Handle G S C K)
  kit_parts = record {
    new_metrics = λ w. with_metrics (new_metrics libraries.registerer cfg.metrics cfg.app.name w);
    new_database = λ w. with_database (new_database drivers urls ctx cfg.database w);
    new_redis = λ w. with_redis (new_redis dialer ctx cfg.redis w);
    new_tx = tx_manager;
    new_session = session_manager;
    new_minio = λ w. with_store (new_minio libraries.store ctx cfg.objectstore w);
    new_checked = λ w. with_adapter (new_checked crypto cfg.casdoor w);
    new_adapter = λ w. kept (new_unchecked crypto cfg.casdoor w);
    new_guard = λ authz audit. guard (interface_of authz) (interface_of audit);
  }

  unfoldable pub kit_runtime : Runtime (Handle G S C K) → Io W (Progress W (Handle G S C K))
  unfolding kit_parts
  kit_runtime rt = new_runtime kit_parts cfg.features rt
