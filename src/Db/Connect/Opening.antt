-- ===== src/Db/Connect/Opening.antt =====
-- db/database.go, db/mysql.go and db/postgres.go: a database is opened when its settings are right and
-- the server answers.
use aisphere_kit.Base.{
  Text, codes, Bool, true, false, not, ◌&&◌, ◌||◌, ◌==◌, ◌++◌, [], Option, Result, ok, err,
  Succeeds, is_ok, and_then, and_then-Succeeds, is_empty, if◌then◌else◌, if_cases, ◌≡◌, refl, arith,
}
use aisphere_kit.Base.Clock.{ℤ, not_positive}
use aisphere_kit.Context.{Context}
use aisphere_kit.Db.Settings.{DatabaseConfig, Dialect, mysql, postgres, canonical_driver, normalize}
use aisphere_kit.Db.Dsn.{Urls, normalize_postgres_dsn, postgres_maintenance_dsn, quote_ident}
use aisphere_kit.Db.Connect.{
  Drivers, Connection, LogSettings, slow_of, slow_threshold, set_lifetime, apply_pool, after_ping,
  after_pool, after_sql, after_open, after_exec, after_exists, then_close, after_maintenance_sql,
  after_maintenance_open, ensure_postgres_database, ensure_wanted, connect, new_mysql,
  open_postgres, new_postgres, new_by, new_database,
}

or_left : (a b : Bool) → a || b ≡ false → a ≡ false
or_left true b h = absurd (ground arith)
or_left false b h = refl

-- What Normalize calls MySQL is what NewMySQL accepts.
normalize-mysql :
    (cfg : DatabaseConfig) (s : Text) (e m p : Bool)
    → is_empty s ≡ e
    → (s == codes "mysql") ≡ m
    → (s == codes "postgres" || s == codes "postgresql" || s == codes "pgx") ≡ p
    → normalize (record cfg { driver = s }) ≡ ok mysql
    → not (is_empty s) && not (s == codes "mysql") ≡ false
unfolding normalize canonical_driver ◌==◌ codes
normalize-mysql cfg s true m p he hm hp h = rw he refl
normalize-mysql cfg s false true p he hm hp h = rw (he, hm) refl
normalize-mysql cfg s false false true he hm hp h =
    let k : ok postgres ≡ ok mysql = rw (he, hm, hp) at h in absurd (ground arith)
normalize-mysql cfg s false false false he hm hp h =
    let other = or_left (s == codes "postgres") _ (or_left _ _ hp) in
    let k = rw (he, hm, hp, hm, other) at h in absurd (ground arith)

-- The data source name that is opened.
abbrev pub dsn_for : {U V : Type 0} → Urls U V → DatabaseConfig → Dialect → Text
dsn_for urls cfg mysql = cfg.dsn
dsn_for urls cfg postgres = normalize_postgres_dsn urls cfg.dsn cfg.ssl_mode cfg.search_path

module _ {W G S : Type 0} (drivers : Drivers W G S) where
  module _ {U V : Type 0} (urls : Urls U V) (ctx : Option (Context W)) (cfg : DatabaseConfig) where
    -- The settings name a database, and the server lets it be looked for and created.
    pub record IsMaintained : Type 0 where
      pub target : Text
      pub dsn : Text
      pub named : postgres_maintenance_dsn urls cfg.dsn cfg.maintenance_db ≡ ok (target, dsn)
      pub given : is_empty target ≡ false
      pub opens :
          (l : LogSettings) (w : W)
          → Succeeds
              (drivers.open_gorm postgres (normalize_postgres_dsn urls dsn cfg.ssl_mode []) l w)
      pub looks : (s : S) (w : W) → Succeeds (drivers.database_exists s ctx target w)
      pub creates :
          (s : S) (w : W)
          → Succeeds (drivers.exec s ctx (codes "CREATE DATABASE " ++ quote_ident target) w)

    -- The server of these settings can be reached, and creates the database where the settings ask for
    -- that.
    pub record IsReachable : Type 0 where
      pub opens :
          (d : Dialect)
          → normalize cfg ≡ ok d
          → (l : LogSettings) (w : W) → Succeeds (drivers.open_gorm d (dsn_for urls cfg d) l w)
      pub finds : (g : G) (w : W) → Succeeds (drivers.sql_db g w)
      pub pings : (s : S) (w : W) → Succeeds (drivers.ping s ctx w)
      pub maintained :
          normalize cfg ≡ ok postgres
          → cfg.auto_create_database || cfg.auto_create ≡ true
          → IsMaintained

  -- A duration of the settings is not given, or can be read.
  abbrev pub IsDuration : Text → Type 0
  IsDuration s = is_empty s ≡ false → is_ok (drivers.parse_duration s) ≡ true

  set_lifetime-Succeeds :
      (s : S) (r : Result ℤ) (w : W) → is_ok r ≡ true → Succeeds (set_lifetime drivers s r w)
  set_lifetime-Succeeds s (ok d) w h = refl
  set_lifetime-Succeeds s (err e) w h = absurd (ground arith)

  slow_of-ok : (r : Result ℤ) → is_ok r ≡ true → is_ok (slow_of drivers r) ≡ true
  slow_of-ok (ok d) h = refl
  slow_of-ok (err e) h = absurd (ground arith)

  slow_threshold-ok : (s : Text) → IsDuration s → is_ok (slow_threshold drivers s) ≡ true
  unfolding slow_threshold
  slow_threshold-ok s h =
      if_cases (λ (r : Result ℤ). is_ok r ≡ true) (is_empty s) _ _ (λ e. refl)
        (λ e. slow_of-ok (drivers.parse_duration s) (h e))

  module _ {U V : Type 0} (urls : Urls U V) (ctx : Option (Context W)) (cfg : DatabaseConfig)
      (answers : IsReachable urls ctx cfg) where
    after_exec-Succeeds :
        (target : Text) (r : Result (Unit {0}) × W)
        → Succeeds r
        → Succeeds (after_exec drivers target r)
    after_exec-Succeeds target (ok u, w) h = refl
    after_exec-Succeeds target (err e, w) h = absurd (ground arith)

    after_exists-Succeeds :
        (m : IsMaintained urls ctx cfg) (s : S) (r : Result Bool × W)
        → Succeeds r
        → Succeeds (after_exists drivers ctx m.target s r)
    after_exists-Succeeds m s (ok true, w) h = refl
    after_exists-Succeeds m s (ok false, w) h = after_exec-Succeeds m.target _ (m.creates s w)
    after_exists-Succeeds m s (err e, w) h = absurd (ground arith)

    then_close-Succeeds :
        (s : S) (r : Result (Unit {0}) × W) → Succeeds r → Succeeds (then_close drivers s r)
    then_close-Succeeds s (r, w) h = h

    after_maintenance_sql-Succeeds :
        (m : IsMaintained urls ctx cfg) (r : Result S × W)
        → Succeeds r
        → Succeeds (after_maintenance_sql drivers ctx m.target r)
    after_maintenance_sql-Succeeds m (ok s, w) h =
        then_close-Succeeds s
          (after_exists drivers ctx m.target s (drivers.database_exists s ctx m.target w))
          (after_exists-Succeeds m s _ (m.looks s w))
    after_maintenance_sql-Succeeds m (err e, w) h = absurd (ground arith)

    after_maintenance_open-Succeeds :
        (m : IsMaintained urls ctx cfg) (r : Result G × W)
        → Succeeds r
        → Succeeds (after_maintenance_open drivers ctx m.target r)
    after_maintenance_open-Succeeds m (ok g, w) h =
        after_maintenance_sql-Succeeds m _ (answers.finds g w)
    after_maintenance_open-Succeeds m (err e, w) h = absurd (ground arith)

    -- EnsurePostgresDatabase succeeds when the settings name a database and the server answers.
    ensure_postgres_database-Succeeds :
        (m : IsMaintained urls ctx cfg) (w : W)
        → Succeeds (ensure_postgres_database drivers urls ctx cfg w)
    unfolding ensure_postgres_database
    ensure_postgres_database-Succeeds m w =
        rw (m.named, m.given) (after_maintenance_open-Succeeds m _ (m.opens _ w))

    ensure_wanted-Succeeds :
        normalize cfg ≡ ok postgres → (w : W) → Succeeds (ensure_wanted drivers urls ctx cfg w)
    ensure_wanted-Succeeds h w =
        if_cases (λ (r : Result (Unit {0}) × W). Succeeds r)
          (cfg.auto_create_database || cfg.auto_create) _ (ok tt, w)
          (λ on. ensure_postgres_database-Succeeds (answers.maintained h on) w) (λ off. refl)

    module _ (lifetime : IsDuration cfg.conn_max_lifetime) where
      apply_pool-Succeeds : (s : S) (w : W) → Succeeds (apply_pool drivers s cfg w)
      unfolding apply_pool
      apply_pool-Succeeds s w =
          let w₁ =
            if not_positive cfg.max_open_conns
            then w
            else drivers.set_max_open_conns s cfg.max_open_conns w in
          let w₂ =
            if not_positive cfg.max_idle_conns
            then w₁
            else drivers.set_max_idle_conns s cfg.max_idle_conns w₁ in
          if_cases (λ (r : Result (Unit {0}) × W). Succeeds r) (is_empty cfg.conn_max_lifetime)
            (ok tt, w₂) _ (λ e. refl)
            (λ e.
              set_lifetime-Succeeds s (drivers.parse_duration cfg.conn_max_lifetime) w₂
                (lifetime e))

      after_ping-Succeeds :
          (c : Connection G S) (r : Result (Unit {0}) × W)
          → Succeeds r
          → Succeeds (after_ping drivers c r)
      after_ping-Succeeds c (ok u, w) h = refl
      after_ping-Succeeds c (err e, w) h = absurd (ground arith)

      after_pool-Succeeds :
          (c : Connection G S) (r : Result (Unit {0}) × W)
          → Succeeds r
          → Succeeds (after_pool drivers c ctx r)
      after_pool-Succeeds c (ok u, w) h = after_ping-Succeeds c _ (answers.pings c.sql w)
      after_pool-Succeeds c (err e, w) h = absurd (ground arith)

      after_sql-Succeeds :
          (d : Dialect) (g : G) (r : Result S × W)
          → Succeeds r
          → Succeeds (after_sql drivers d cfg ctx g r)
      after_sql-Succeeds d g (ok s, w) h =
          after_pool-Succeeds (record { dialect = d; gorm = g; sql = s }) _
            (apply_pool-Succeeds s w)
      after_sql-Succeeds d g (err e, w) h = absurd (ground arith)

      after_open-Succeeds :
          (d : Dialect) (r : Result G × W) → Succeeds r → Succeeds (after_open drivers d cfg ctx r)
      after_open-Succeeds d (ok g, w) h = after_sql-Succeeds d g _ (answers.finds g w)
      after_open-Succeeds d (err e, w) h = absurd (ground arith)

      connect-Succeeds :
          (d : Dialect)
          → normalize cfg ≡ ok d
          → (slow : ℤ) (w : W) → Succeeds (connect drivers d (dsn_for urls cfg d) cfg ctx slow w)
      unfolding connect
      connect-Succeeds d h slow w = after_open-Succeeds d _ (answers.opens d h _ w)

      module _ (threshold : IsDuration cfg.slow_threshold) (given : is_empty cfg.dsn ≡ false) where
        new_mysql-Succeeds :
            normalize cfg ≡ ok mysql → (w : W) → Succeeds (new_mysql drivers ctx cfg w)
        unfolding new_mysql
        new_mysql-Succeeds h w =
            let named = normalize-mysql cfg cfg.driver _ _ _ refl refl refl h in
            rw (named, given)
              (and_then-Succeeds (slow_threshold drivers cfg.slow_threshold, w)
                (connect drivers mysql cfg.dsn cfg ctx)
                (slow_threshold-ok cfg.slow_threshold threshold) (connect-Succeeds mysql h))

        open_postgres-Succeeds :
            normalize cfg ≡ ok postgres
            → (slow : ℤ) (w : W) → Succeeds (open_postgres drivers urls ctx cfg slow w)
        open_postgres-Succeeds h slow w =
            and_then-Succeeds (ensure_wanted drivers urls ctx cfg w) _ (ensure_wanted-Succeeds h w)
              (λ u v. connect-Succeeds postgres h slow v)

        new_postgres-Succeeds :
            normalize cfg ≡ ok postgres → (w : W) → Succeeds (new_postgres drivers urls ctx cfg w)
        unfolding new_postgres
        new_postgres-Succeeds h w = rw given (
            and_then-Succeeds (slow_threshold drivers cfg.slow_threshold, w)
              (open_postgres drivers urls ctx cfg) (slow_threshold-ok cfg.slow_threshold threshold)
              (open_postgres-Succeeds h))

        new_by-Succeeds :
            (d : Dialect) (w : W)
            → normalize cfg ≡ ok d
            → Succeeds (new_by drivers urls ctx cfg d w)
        new_by-Succeeds mysql w h = new_mysql-Succeeds h w
        new_by-Succeeds postgres w h = new_postgres-Succeeds h w

        chosen-Succeeds :
            (r : Result Dialect) (w : W)
            → normalize cfg ≡ r
            → is_ok r ≡ true
            → Succeeds (and_then (new_by drivers urls ctx cfg) (r, w))
        chosen-Succeeds (ok d) w e h = new_by-Succeeds d w e
        chosen-Succeeds (err x) w e h = absurd (ground arith)

        -- NewDatabase succeeds when the driver is known, the settings are complete and readable, and the
        -- server answers.
        pub new_database-Succeeds :
            (w : W) → is_ok (normalize cfg) ≡ true → Succeeds (new_database drivers urls ctx cfg w)
        unfolding new_database
        new_database-Succeeds w h = chosen-Succeeds (normalize cfg) w refl h
