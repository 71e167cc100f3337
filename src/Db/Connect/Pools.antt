-- ===== src/Db/Connect/Pools.antt =====
-- db: no connection pool that GORM handed over stays open but the one of the database that is returned.
use aisphere_kit.Base.{
  Text, Bool, true, false, ◌||◌, Option, Result, ok, err, fail, plain, codes, not, ◌&&◌, ◌==◌, ◌++◌,
  and_then, is_empty, if◌then◌else◌, if_either, OneMore, and_then-OneMore, ◌≡◌, refl, ◌∙◌, ℕ, suc,
}
use aisphere_kit.Base.Search.{quoted}
use mathlib.Core.Path.{subst}
use aisphere_kit.Base.Clock.{ℤ, not_positive}
use aisphere_kit.Context.{Context}
use aisphere_kit.Db.Settings.{DatabaseConfig, Dialect, mysql, postgres, normalize}
use aisphere_kit.Db.Dsn.{Urls, postgres_maintenance_dsn}
use aisphere_kit.Db.Connect.{
  Drivers, Connection, LogSettings, apply_pool, set_lifetime, after_ping, after_pool, after_open,
  connect, slow_threshold, new_mysql, after_sql, after_maintenance_sql, after_exec, after_exists,
  after_maintenance_open, ensure_target, ensure_postgres_database, ensure_wanted, new_postgres,
  new_by, new_database,
}

module _ {W G S : Type 0} (drivers : Drivers W G S) (live : W → ℕ) where
  -- `live` counts the pools that were handed over and not closed, perhaps among other things: DB hands a
  -- pool over when it succeeds, Close ends it, whatever it answers, and nothing else hands over or closes
  -- a pool. What Open or DB leave behind when they fail is not counted, since they hand over no *sql.DB.
  pub record PoolCount : Type 0 where
    pub gorm_keeps :
        (d : Dialect) (dsn : Text) (l : LogSettings) (w : W)
        → live (drivers.open_gorm d dsn l w).1 ≡ live w
    pub sql_db_hands : (g : G) (w : W) → OneMore live (live w) (drivers.sql_db g w)
    pub open_keeps : (s : S) (n : ℤ) (w : W) → live (drivers.set_max_open_conns s n w) ≡ live w
    pub idle_keeps : (s : S) (n : ℤ) (w : W) → live (drivers.set_max_idle_conns s n w) ≡ live w
    pub lifetime_keeps :
        (s : S) (d : ℤ) (w : W) → live (drivers.set_conn_max_lifetime s d w) ≡ live w
    pub ping_keeps :
        (s : S) (ctx : Option (Context W)) (w : W) → live (drivers.ping s ctx w).1 ≡ live w
    pub exists_keeps :
        (s : S) (ctx : Option (Context W)) (name : Text) (w : W)
        → live (drivers.database_exists s ctx name w).1 ≡ live w
    pub exec_keeps :
        (s : S) (ctx : Option (Context W)) (sql : Text) (w : W)
        → live (drivers.exec s ctx sql w).1 ≡ live w
    pub close_closes : (s : S) (w : W) (n : ℕ) → live w ≡ suc n → live (drivers.close s w).1 ≡ n

  module _ (count : PoolCount) where
    set_lifetime-live :
        (s : S) (r : Result ℤ) (w : W) → live (set_lifetime drivers s r w).1 ≡ live w
    set_lifetime-live s (err e) w = refl
    set_lifetime-live s (ok d) w = count.lifetime_keeps s d w

    apply_pool-live :
        (s : S) (cfg : DatabaseConfig) (w : W) → live (apply_pool drivers s cfg w).1 ≡ live w
    unfolding apply_pool
    apply_pool-live s cfg w =
        let w₁ =
          if not_positive cfg.max_open_conns
          then w
          else drivers.set_max_open_conns s cfg.max_open_conns w in
        let w₂ =
          if not_positive cfg.max_idle_conns
          then w₁
          else drivers.set_max_idle_conns s cfg.max_idle_conns w₁ in
        let kept₁ =
          if_either (λ v. live v ≡ live w) (not_positive cfg.max_open_conns) w _ refl
            (count.open_keeps s _ w) in
        let kept₂ =
          if_either (λ v. live v ≡ live w) (not_positive cfg.max_idle_conns) w₁ _ kept₁
            (count.idle_keeps s _ w₁ ∙ kept₁) in
        if_either (λ (r : Result (Unit {0}) × W). live r.1 ≡ live w)
          (is_empty cfg.conn_max_lifetime) (ok tt, w₂) _ kept₂
          (set_lifetime-live s (drivers.parse_duration cfg.conn_max_lifetime) w₂ ∙ kept₂)

    after_ping-OneMore :
        (c : Connection G S) (r : Result (Unit {0}) × W) (n : ℕ)
        → live r.1 ≡ suc n
        → OneMore live n (after_ping drivers c r)
    after_ping-OneMore c (ok u, w) n h = h
    after_ping-OneMore c (err e, w) n h = count.close_closes c.sql w n h

    after_pool-OneMore :
        (c : Connection G S) (ctx : Option (Context W)) (r : Result (Unit {0}) × W) (n : ℕ)
        → live r.1 ≡ suc n
        → OneMore live n (after_pool drivers c ctx r)
    after_pool-OneMore c ctx (ok u, w) n h =
        after_ping-OneMore c _ n (count.ping_keeps c.sql ctx w ∙ h)
    after_pool-OneMore c ctx (err e, w) n h = count.close_closes c.sql w n h

    after_sql-OneMore :
        (d : Dialect) (cfg : DatabaseConfig) (ctx : Option (Context W)) (g : G) (r : Result S × W)
        (n : ℕ)
        → OneMore live n r
        → OneMore live n (after_sql drivers d cfg ctx g r)
    after_sql-OneMore d cfg ctx g (err e, w) n h = h
    after_sql-OneMore d cfg ctx g (ok s, w) n h =
        after_pool-OneMore (record { dialect = d; gorm = g; sql = s }) ctx _ n
          (apply_pool-live s cfg w ∙ h)

    after_open-OneMore :
        (d : Dialect) (cfg : DatabaseConfig) (ctx : Option (Context W)) (r : Result G × W) (n : ℕ)
        → live r.1 ≡ n
        → OneMore live n (after_open drivers d cfg ctx r)
    after_open-OneMore d cfg ctx (err e, w) n h = h
    after_open-OneMore d cfg ctx (ok g, w) n h =
        after_sql-OneMore d cfg ctx g _ n
          (subst (λ m. OneMore live m (drivers.sql_db g w)) h (count.sql_db_hands g w))

    connect-OneMore :
        (d : Dialect) (dsn : Text) (cfg : DatabaseConfig) (ctx : Option (Context W)) (slow : ℤ)
        (w : W)
        → OneMore live (live w) (connect drivers d dsn cfg ctx slow w)
    unfolding connect
    connect-OneMore d dsn cfg ctx slow w =
        after_open-OneMore d cfg ctx _ (live w) (count.gorm_keeps d dsn _ w)

    new_mysql-OneMore :
        (ctx : Option (Context W)) (cfg : DatabaseConfig) (w : W)
        → OneMore live (live w) (new_mysql drivers ctx cfg w)
    unfolding new_mysql
    new_mysql-OneMore ctx cfg w =
        if_either (λ m. OneMore live (live w) (m w))
          (not (is_empty cfg.driver) && not (cfg.driver == codes "mysql"))
          (fail (plain (codes "unsupported database.driver " ++ quoted cfg.driver))) _ refl
          (if_either (λ m. OneMore live (live w) (m w)) (is_empty cfg.dsn)
            (fail (plain (codes "database.dsn is required"))) _ refl
            (and_then-OneMore live (slow_threshold drivers cfg.slow_threshold) _ w
              (λ slow. connect-OneMore mysql cfg.dsn cfg ctx slow w)))

    -- The maintenance connection is closed again, however its query ends.
    after_exec-live :
        (target : Text) (r : Result (Unit {0}) × W)
        → live (after_exec drivers target r).1 ≡ live r.1
    after_exec-live target (ok u, w) = refl
    after_exec-live target (err e, w) = refl

    after_exists-live :
        (ctx : Option (Context W)) (target : Text) (s : S) (r : Result Bool × W)
        → live (after_exists drivers ctx target s r).1 ≡ live r.1
    after_exists-live ctx target s (err e, w) = refl
    after_exists-live ctx target s (ok true, w) = refl
    after_exists-live ctx target s (ok false, w) =
        after_exec-live target (drivers.exec s ctx _ w) ∙ count.exec_keeps s ctx _ w

    after_maintenance_sql-live :
        (ctx : Option (Context W)) (target : Text) (r : Result S × W) (n : ℕ)
        → OneMore live n r
        → live (after_maintenance_sql drivers ctx target r).1 ≡ n
    after_maintenance_sql-live ctx target (err e, w) n h = h
    after_maintenance_sql-live ctx target (ok s, w) n h =
        let asked = drivers.database_exists s ctx target w in
        count.close_closes s _ n
          (after_exists-live ctx target s asked ∙ count.exists_keeps s ctx target w ∙ h)

    after_maintenance_open-live :
        (ctx : Option (Context W)) (target : Text) (r : Result G × W) (n : ℕ)
        → live r.1 ≡ n
        → live (after_maintenance_open drivers ctx target r).1 ≡ n
    after_maintenance_open-live ctx target (err e, w) n h = h
    after_maintenance_open-live ctx target (ok g, w) n h =
        after_maintenance_sql-live ctx target _ n
          (subst (λ m. OneMore live m (drivers.sql_db g w)) h (count.sql_db_hands g w))

    module _ {U V : Type 0} (urls : Urls U V) where
      ensure_target-live :
          (ctx : Option (Context W)) (cfg : DatabaseConfig) (target dsn : Text) (w : W)
          → live (ensure_target drivers urls ctx cfg (target, dsn) w).1 ≡ live w
      ensure_target-live ctx cfg target dsn w =
          if_either (λ (r : Result (Unit {0}) × W). live r.1 ≡ live w) (is_empty target) (err _, w)
            _ refl
            (after_maintenance_open-live ctx target _ (live w) (count.gorm_keeps postgres _ _ w))

      and_then-live :
          {A : Type 0} (r : Result A) (f : A → W → Result (Unit {0}) × W) (w : W)
          → ((a : A) → live (f a w).1 ≡ live w)
          → live (and_then f (r, w)).1 ≡ live w
      and_then-live (ok a) f w h = h a
      and_then-live (err e) f w h = refl

      -- EnsurePostgresDatabase closes the connection that it opens.
      pub ensure_postgres_database-live :
          (ctx : Option (Context W)) (cfg : DatabaseConfig) (w : W)
          → live (ensure_postgres_database drivers urls ctx cfg w).1 ≡ live w
      unfolding ensure_postgres_database
      ensure_postgres_database-live ctx cfg w =
          and_then-live (postgres_maintenance_dsn urls cfg.dsn cfg.maintenance_db) _ w
            (λ (target, dsn). ensure_target-live ctx cfg target dsn w)

      ensure_wanted-live :
          (ctx : Option (Context W)) (cfg : DatabaseConfig) (w : W)
          → live (ensure_wanted drivers urls ctx cfg w).1 ≡ live w
      ensure_wanted-live ctx cfg w =
          if_either (λ (r : Result (Unit {0}) × W). live r.1 ≡ live w)
            (cfg.auto_create_database || cfg.auto_create) _ (ok tt, w)
            (ensure_postgres_database-live ctx cfg w) refl

      -- What follows a step that keeps the pools.
      then-OneMore :
          {B : Type 0} (r : Result (Unit {0}) × W) (f : W → Result B × W) (n : ℕ)
          → live r.1 ≡ n
          → ((w : W) → OneMore live (live w) (f w))
          → OneMore live n (and_then (λ _. f) r)
      then-OneMore (ok u, w) f n e h = subst (λ m. OneMore live m (f w)) e (h w)
      then-OneMore (err x, w) f n e h = e

      new_postgres-OneMore :
          (ctx : Option (Context W)) (cfg : DatabaseConfig) (w : W)
          → OneMore live (live w) (new_postgres drivers urls ctx cfg w)
      unfolding new_postgres
      new_postgres-OneMore ctx cfg w =
          if_either (λ m. OneMore live (live w) (m w)) (is_empty cfg.dsn)
            (fail (plain (codes "database.dsn is required"))) _ refl
            (and_then-OneMore live (slow_threshold drivers cfg.slow_threshold) _ w (λ slow.
              then-OneMore (ensure_wanted drivers urls ctx cfg w) _ (live w)
                (ensure_wanted-live ctx cfg w) (connect-OneMore postgres _ cfg ctx slow)))

      new_by-OneMore :
          (ctx : Option (Context W)) (cfg : DatabaseConfig) (d : Dialect) (w : W)
          → OneMore live (live w) (new_by drivers urls ctx cfg d w)
      new_by-OneMore ctx cfg mysql w = new_mysql-OneMore ctx cfg w
      new_by-OneMore ctx cfg postgres w = new_postgres-OneMore ctx cfg w

      -- Of the pools that GORM handed over to it, NewDatabase leaves exactly one open when it succeeds, and
      -- none when it fails, on every path: the connection to the maintenance database, and a pool whose
      -- settings or whose first ping fail, are closed again. Nothing is said of a pool that GORM does not
      -- hand over, because Open or DB fails: the code has no handle to close it with.
      -- It is assumed that only DB hands over a pool, and that Close ends it whatever it answers.
      pub new_database-OneMore :
          (ctx : Option (Context W)) (cfg : DatabaseConfig) (w : W)
          → OneMore live (live w) (new_database drivers urls ctx cfg w)
      unfolding new_database
      new_database-OneMore ctx cfg w =
          and_then-OneMore live (normalize cfg) _ w (λ d. new_by-OneMore ctx cfg d w)
