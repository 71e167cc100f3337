-- ===== src/Db/Settings.antt =====
-- db/database.go: the settings of a database and the names of the drivers.
use aisphere_kit.Base.{
  Text, codes, Bool, ◌||◌, ◌++◌, Result, ok, err, plain, is_empty, if◌then◌else◌, ◌==◌,
}
use aisphere_kit.Base.Search.{quoted}
use aisphere_kit.Base.Clock.{ℤ}

-- DatabaseConfig, of which MySQLConfig and PostgresConfig are aliases.
pub record DatabaseConfig : Type 0 where
  pub driver : Text
  pub dsn : Text
  pub max_open_conns : ℤ
  pub max_idle_conns : ℤ
  pub conn_max_lifetime : Text
  pub slow_threshold : Text
  pub log_level : Text
  pub auto_create_database : Bool
  pub auto_create : Bool
  pub maintenance_db : Text
  pub search_path : Text
  pub ssl_mode : Text

-- The drivers that there are, and their canonical names.
pub data Dialect : Type 0 where
  mysql postgres : Dialect

abbrev pub name_of : Dialect → Text
name_of mysql = codes "mysql"
name_of postgres = codes "postgres"

unfoldable pub canonical_driver : Text → Text
canonical_driver s =
    if is_empty s || s == codes "mysql"
    then codes "mysql"
    else if s == codes "postgres" || s == codes "postgresql" || s == codes "pgx"
    then codes "postgres"
    else s

-- Normalize, whose canonical names are a `Dialect` here.
unfoldable pub normalize : DatabaseConfig → Result Dialect
unfolding canonical_driver
normalize cfg =
    if canonical_driver cfg.driver == codes "mysql"
    then ok mysql
    else if canonical_driver cfg.driver == codes "postgres"
    then ok postgres
    else err (
        plain (
          codes "unsupported database.driver "
          ++ (quoted cfg.driver ++ codes " (supported: mysql, postgres)")))

pub data LogLevel : Type 0 where
  silent info error warn : LogLevel

unfoldable pub parse_log_level : Text → LogLevel
parse_log_level level =
    if level == codes "silent"
    then silent
    else if level == codes "info"
    then info
    else if level == codes "error"
    then error
    else warn
