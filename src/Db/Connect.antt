-- ===== src/Db/Connect.antt =====
-- db/database.go, db/mysql.go and db/postgres.go: how a database is opened. GORM, its drivers and
-- database/sql are not part of the repository: they are a parameter of the model.
use aisphere_kit.Base.{
  Text, codes, Bool, true, false, not, ◌&&◌, ◌||◌, [], ◌∷◌, ◌++◌, Option, none, some, Result, ok,
  err, Io, pure, fail, lift, ◌>>=◌, ◌>>◌, and_then, Error, plain, wrapped, is_empty, if◌then◌else◌,
  trim_space, ◌==◌, ◌*◌,
}
use aisphere_kit.Base.Search.{quoted}
use aisphere_kit.Base.Clock.{ℤ, pos, not_positive, millisecond}
use aisphere_kit.Context.{Context}
use aisphere_kit.Db.Settings.{
  DatabaseConfig, Dialect, mysql, postgres, name_of, normalize, LogLevel, warn, parse_log_level,
}
use aisphere_kit.Db.Dsn.{Urls, normalize_postgres_dsn, postgres_maintenance_dsn, quote_ident}
pub mod Pools
pub mod Opening

-- What gorm.Config is given for its logger.
pub record LogSettings : Type 0 where
  pub slow : ℤ
  pub level : LogLevel

-- `G` is the type of a *gorm.DB and `S` that of a *sql.DB.
pub record Drivers (W G S : Type 0) : Type 0 where
  pub open_gorm : Dialect → Text → LogSettings → Io W G
  pub sql_db : G → Io W S
  pub set_max_open_conns : S → ℤ → W → W
  pub set_max_idle_conns : S → ℤ → W → W
  pub set_conn_max_lifetime : S → ℤ → W → W
  pub ping : S → Option (Context W) → Io W (Unit {0})
  pub close : S → W → Option Error × W
  -- SELECT EXISTS(SELECT 1 FROM pg_database WHERE datname = $1)
  pub database_exists : S → Option (Context W) → Text → Io W Bool
  pub exec : S → Option (Context W) → Text → Io W (Unit {0})
  pub parse_duration : Text → Result ℤ

-- MySQL and Postgres.
pub record Connection (G S : Type 0) : Type 0 where
  pub dialect : Dialect
  pub gorm : G
  pub sql : S

abbrev pub half_second : ℤ
half_second = pos (500 * millisecond)

module _ {W G S : Type 0} (drivers : Drivers W G S) where
  abbrev pub slow_of : Result ℤ → Result ℤ
  slow_of (err e) = err (wrapped (codes "parse database.slow_threshold: ") e [])
  slow_of (ok d) = ok (if not_positive d then half_second else d)

  unfoldable pub slow_threshold : Text → Result ℤ
  slow_threshold s = if is_empty s then ok half_second else slow_of (drivers.parse_duration s)

  abbrev pub set_lifetime : S → Result ℤ → Io W (Unit {0})
  set_lifetime s (err e) w = (err (wrapped (codes "parse database.conn_max_lifetime: ") e []), w)
  set_lifetime s (ok d) w = (ok tt, drivers.set_conn_max_lifetime s d w)

  unfoldable pub apply_pool : S → DatabaseConfig → Io W (Unit {0})
  apply_pool s cfg w =
      let w₁ =
        if not_positive cfg.max_open_conns
        then w
        else drivers.set_max_open_conns s cfg.max_open_conns w in
      let w₂ =
        if not_positive cfg.max_idle_conns
        then w₁
        else drivers.set_max_idle_conns s cfg.max_idle_conns w₁ in
      if is_empty cfg.conn_max_lifetime
      then (ok tt, w₂)
      else set_lifetime s (drivers.parse_duration cfg.conn_max_lifetime) w₂

  -- The error of a step with the name of the driver in it.
  abbrev pub labelled : Text → Dialect → Text → Error → Error
  labelled before dialect after e = wrapped (before ++ (name_of dialect ++ after)) e []

  -- `_ = sqlDB.Close(); return nil, err`
  abbrev pub close_after : {A : Type 0} → S → Error → W → Result A × W
  close_after s e w = (err e, (drivers.close s w).1)

  abbrev pub after_ping : Connection G S → Result (Unit {0}) × W → Result (Connection G S) × W
  after_ping c (ok u, w) = (ok c, w)
  after_ping c (err e, w) = close_after c.sql (labelled (codes "ping ") c.dialect (codes ": ") e) w

  abbrev pub after_pool :
      Connection G S → Option (Context W) → Result (Unit {0}) × W → Result (Connection G S) × W
  after_pool c ctx (ok u, w) = after_ping c (drivers.ping c.sql ctx w)
  after_pool c ctx (err e, w) = close_after c.sql e w

  abbrev pub after_sql :
      Dialect → DatabaseConfig → Option (Context W) → G → Result S × W → Result (Connection G S) × W
  after_sql dialect cfg ctx g (err e, w) = (err (labelled [] dialect (codes " sql db: ") e), w)
  after_sql dialect cfg ctx g (ok s, w) =
      after_pool (record { dialect = dialect; gorm = g; sql = s }) ctx (apply_pool s cfg w)

  abbrev pub after_open :
      Dialect → DatabaseConfig → Option (Context W) → Result G × W → Result (Connection G S) × W
  after_open dialect cfg ctx (err e, w) = (err (labelled (codes "open ") dialect (codes ": ") e), w)
  after_open dialect cfg ctx (ok g, w) = after_sql dialect cfg ctx g (drivers.sql_db g w)

  -- What NewMySQL and NewPostgres do with the data source name.
  unfoldable pub connect :
      Dialect → Text → DatabaseConfig → Option (Context W) → ℤ → Io W (Connection G S)
  unfolding apply_pool
  connect dialect dsn cfg ctx slow w = after_open dialect cfg ctx (
      drivers.open_gorm dialect dsn (record { slow = slow; level = parse_log_level cfg.log_level })
        w)

  unfoldable pub new_mysql : Option (Context W) → DatabaseConfig → Io W (Connection G S)
  unfolding connect slow_threshold
  new_mysql ctx cfg =
      if not (is_empty cfg.driver) && not (cfg.driver == codes "mysql")
      then fail (plain (codes "unsupported database.driver " ++ quoted cfg.driver))
      else if is_empty cfg.dsn
      then fail (plain (codes "database.dsn is required"))
      else lift (slow_threshold cfg.slow_threshold) >>= connect mysql cfg.dsn cfg ctx

  abbrev pub after_exec : Text → Result (Unit {0}) × W → Result (Unit {0}) × W
  after_exec target (ok u, w) = (ok tt, w)
  after_exec target (err e, w) =
      (err (wrapped (codes "create postgres database " ++ (quoted target ++ codes ": ")) e []), w)

  abbrev pub after_exists : Option (Context W) → Text → S → Result Bool × W → Result (Unit {0}) × W
  after_exists ctx target s (err e, w) =
      (err (wrapped (codes "check postgres database existence: ") e []), w)
  after_exists ctx target s (ok true, w) = (ok tt, w)
  after_exists ctx target s (ok false, w) =
      after_exec target (drivers.exec s ctx (codes "CREATE DATABASE " ++ quote_ident target) w)

  -- `defer sqlDB.Close()`
  abbrev pub then_close : S → Result (Unit {0}) × W → Result (Unit {0}) × W
  then_close s (r, w) = (r, (drivers.close s w).1)

  abbrev pub after_maintenance_sql :
      Option (Context W) → Text → Result S × W → Result (Unit {0}) × W
  after_maintenance_sql ctx target (err e, w) =
      (err (wrapped (codes "postgres maintenance sql db: ") e []), w)
  after_maintenance_sql ctx target (ok s, w) =
      then_close s (after_exists ctx target s (drivers.database_exists s ctx target w))

  abbrev pub after_maintenance_open :
      Option (Context W) → Text → Result G × W → Result (Unit {0}) × W
  after_maintenance_open ctx target (err e, w) =
      (err (wrapped (codes "open postgres maintenance database: ") e []), w)
  after_maintenance_open ctx target (ok g, w) =
      after_maintenance_sql ctx target (drivers.sql_db g w)

  -- The methods Close and Ping of MySQL and Postgres; a nil receiver is `none`.
  unfoldable pub close_connection : Option (Connection G S) → W → Option Error × W
  close_connection none w = (none, w)
  close_connection (some c) w = drivers.close c.sql w

  unfoldable pub ping_connection :
      Dialect → Option (Connection G S) → Option (Context W) → Io W (Unit {0})
  ping_connection dialect none ctx = fail (plain (name_of dialect ++ codes " not initialized"))
  ping_connection dialect (some c) ctx = drivers.ping c.sql ctx

  module _ {U V : Type 0} (urls : Urls U V) where
    abbrev pub ensure_target : Option (Context W) → DatabaseConfig → Text × Text → Io W (Unit {0})
    ensure_target ctx cfg (target, dsn) w =
        if is_empty target
        then (
          err (plain (codes "postgres target database name is required for auto_create_database")),
          w,
        )
        else after_maintenance_open ctx target (
            drivers.open_gorm postgres (normalize_postgres_dsn urls dsn cfg.ssl_mode [])
              (record { slow = half_second; level = warn }) w)

    unfoldable pub ensure_postgres_database : Option (Context W) → DatabaseConfig → Io W (Unit {0})
    ensure_postgres_database ctx cfg =
        lift (postgres_maintenance_dsn urls cfg.dsn cfg.maintenance_db) >>= ensure_target ctx cfg

    abbrev pub ensure_wanted : Option (Context W) → DatabaseConfig → Io W (Unit {0})
    ensure_wanted ctx cfg w =
        if cfg.auto_create_database || cfg.auto_create
        then ensure_postgres_database ctx cfg w
        else (ok tt, w)

    abbrev pub open_postgres : Option (Context W) → DatabaseConfig → ℤ → Io W (Connection G S)
    open_postgres ctx cfg slow =
        ensure_wanted ctx cfg
        >> connect postgres (normalize_postgres_dsn urls cfg.dsn cfg.ssl_mode cfg.search_path) cfg
            ctx slow

    unfoldable pub new_postgres : Option (Context W) → DatabaseConfig → Io W (Connection G S)
    unfolding connect slow_threshold ensure_postgres_database
    new_postgres ctx cfg =
        if is_empty cfg.dsn
        then fail (plain (codes "database.dsn is required"))
        else lift (slow_threshold cfg.slow_threshold) >>= open_postgres ctx cfg

    abbrev pub new_by : Option (Context W) → DatabaseConfig → Dialect → Io W (Connection G S)
    new_by ctx cfg mysql = new_mysql ctx cfg
    new_by ctx cfg postgres = new_postgres ctx cfg

    unfoldable pub new_database : Option (Context W) → DatabaseConfig → Io W (Connection G S)
    unfolding new_mysql new_postgres
    new_database ctx cfg = lift (normalize cfg) >>= new_by ctx cfg
