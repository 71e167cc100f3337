-- ===== src/Cache/Connect.antt =====
-- cache/redis.go: how a Redis runtime is opened. The client is github.com/redis/go-redis, which is not
-- part of the repository: a parameter of the model.
use aisphere_kit.Base.{
  Text, codes, List, [], Option, none, some, Result, ok, err, Io, fail, Error, plain, wrapped,
  is_empty, if◌then◌else◌, ◌==◌, ◌*◌,
}
use aisphere_kit.Base.Clock.{ℤ, pos, second}
use aisphere_kit.Context.{Context}
pub mod Clients

pub record RedisConfig : Type 0 where
  pub mode : Text
  pub addr : Text
  pub addrs : List Text
  pub username : Text
  pub password : Text
  pub db : ℤ
  pub dial_timeout : Text
  pub read_timeout : Text
  pub write_timeout : Text
  pub pool_size : ℤ

-- redis.Options and redis.ClusterOptions, as far as NewRedis sets them.
pub record ClientOptions : Type 0 where
  pub addr : Text
  pub username : Text
  pub password : Text
  pub db : ℤ
  pub dial_timeout : ℤ
  pub read_timeout : ℤ
  pub write_timeout : ℤ
  pub pool_size : ℤ

pub record ClusterOptions : Type 0 where
  pub addrs : List Text
  pub username : Text
  pub password : Text
  pub dial_timeout : ℤ
  pub read_timeout : ℤ
  pub write_timeout : ℤ
  pub pool_size : ℤ

-- `C` is the type of a redis.UniversalClient. The two constructors do not fail.
pub record Dialer (W C : Type 0) : Type 0 where
  pub new_client : ClientOptions → W → C × W
  pub new_cluster_client : ClusterOptions → W → C × W
  pub ping : C → Option (Context W) → Io W (Unit {0})
  pub close : C → W → Option Error × W
  pub parse_duration : Text → Result ℤ

-- The Redis runtime, without its logger and its metrics.
pub record RedisRuntime (C : Type 0) : Type 0 where
  pub client : C
  pub mode : Text

abbrev pub mode_of : RedisConfig → Text
mode_of cfg = if is_empty cfg.mode then codes "single" else cfg.mode

abbrev parsed_or : ℤ → Result ℤ → ℤ
parsed_or fallback (ok d) = d
parsed_or fallback (err e) = fallback

module _ {W C : Type 0} (dialer : Dialer W C) where
  unfoldable pub dur_or_default : Text → ℤ → ℤ
  dur_or_default s fallback =
      if is_empty s then fallback else parsed_or fallback (dialer.parse_duration s)

  abbrev pub client_options : RedisConfig → ClientOptions
  client_options cfg = record {
    addr = cfg.addr;
    username = cfg.username;
    password = cfg.password;
    db = cfg.db;
    dial_timeout = dur_or_default cfg.dial_timeout (pos (5 * second));
    read_timeout = dur_or_default cfg.read_timeout (pos (3 * second));
    write_timeout = dur_or_default cfg.write_timeout (pos (3 * second));
    pool_size = cfg.pool_size;
  }

  abbrev pub cluster_options : RedisConfig → ClusterOptions
  cluster_options cfg = record {
    addrs = cfg.addrs;
    username = cfg.username;
    password = cfg.password;
    dial_timeout = dur_or_default cfg.dial_timeout (pos (5 * second));
    read_timeout = dur_or_default cfg.read_timeout (pos (3 * second));
    write_timeout = dur_or_default cfg.write_timeout (pos (3 * second));
    pool_size = cfg.pool_size;
  }

  abbrev pub after_ping : RedisConfig → C → Result (Unit {0}) × W → Result (RedisRuntime C) × W
  after_ping cfg c (ok u, w) = (ok (record { client = c; mode = mode_of cfg }), w)
  after_ping cfg c (err e, w) = (err (wrapped (codes "ping redis: ") e []), (dialer.close c w).1)

  abbrev pub pinged : Option (Context W) → RedisConfig → C × W → Result (RedisRuntime C) × W
  pinged ctx cfg (c, w) = after_ping cfg c (dialer.ping c ctx w)

  unfoldable pub new_redis : Option (Context W) → RedisConfig → Io W (RedisRuntime C)
  new_redis ctx cfg =
      if mode_of cfg == codes "single"
      then (if is_empty cfg.addr then fail (plain (codes "redis.addr is required")) else λ w.
          pinged ctx cfg (dialer.new_client (client_options cfg) w))
      else if mode_of cfg == codes "cluster"
      then (if is_empty cfg.addrs
          then fail (plain (codes "redis.addrs is required for cluster"))
          else λ w. pinged ctx cfg (dialer.new_cluster_client (cluster_options cfg) w))
      else fail (plain (codes "redis.mode only supports single or cluster"))

  -- A nil receiver is `none`.
  unfoldable pub close_redis : Option (RedisRuntime C) → W → Option Error × W
  close_redis none w = (none, w)
  close_redis (some r) w = dialer.close r.client w

  unfoldable pub ping_redis : Option (RedisRuntime C) → Option (Context W) → Io W (Unit {0})
  ping_redis none ctx = fail (plain (codes "redis not initialized"))
  ping_redis (some r) ctx = dialer.ping r.client ctx
