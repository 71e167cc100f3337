-- ===== src/Starter/Sample.antt =====
-- Libraries whose world is the number of the pools and clients that are open, and settings for them.
use aisphere_kit.Base.{
  Text, codes, Bool, true, false, if◌then◌else◌, [], none, some, ok, err, plain, refl, ℕ, suc, ◌-◌,
  arith,
}
use aisphere_kit.Base.Clock.{pos}
use aisphere_kit.Db.Dsn.{Urls}
use aisphere_kit.Db.Settings.{DatabaseConfig}
use aisphere_kit.Db.Connect.{Drivers}
use aisphere_kit.Db.Connect.Pools.{PoolCount}
use aisphere_kit.Metrics.{already}
use aisphere_kit.Cache.Connect.{Dialer, RedisConfig}
use aisphere_kit.Cache.Connect.Clients.{ClientCount}
use aisphere_kit.ObjectStore.{Library, MinioConfig}
use aisphere_kit.Casdoor.Certificate.{Crypto}
use aisphere_kit.Casdoor.Settings
use aisphere_kit.Config.Types.{Config, FeatureConfig}
use aisphere_kit.Starter.Kit.{Libraries}

abbrev pub T : Type 0
T = Unit {0}

-- A URL is its text.
abbrev pub sample_urls : Urls Text Text
sample_urls = record {
  parse = λ s. ok s;
  text = λ u. u;
  query = λ u. [];
  with_query = λ u q. u;
  get = λ q k. [];
  set = λ q k v. q;
  escaped_path = λ u. [];
  with_path = λ u p. u;
  path_escape = λ s. s;
  path_unescape = λ s. ok s;
}

abbrev pub sample_drivers : Drivers ℕ T T
sample_drivers = record {
  open_gorm = λ d dsn l n. (ok tt, n);
  sql_db = λ g n. (ok tt, suc n);
  set_max_open_conns = λ s k n. n;
  set_max_idle_conns = λ s k n. n;
  set_conn_max_lifetime = λ s d n. n;
  ping = λ s ctx n. (ok tt, n);
  close = λ s n. (none, n - 1);
  database_exists = λ s ctx name n. (ok true, n);
  exec = λ s ctx sql n. (ok tt, n);
  parse_duration = λ s. ok (pos 7);
}

abbrev pub sample_pools : PoolCount sample_drivers (λ n. n)
sample_pools = record {
  gorm_keeps = λ d dsn l n. refl;
  sql_db_hands = λ g n. refl;
  open_keeps = λ s k n. refl;
  idle_keeps = λ s k n. refl;
  lifetime_keeps = λ s d n. refl;
  ping_keeps = λ s ctx n. refl;
  exists_keeps = λ s ctx name n. refl;
  exec_keeps = λ s ctx sql n. refl;
  close_closes = λ s n k h. omega (arith, h);
}

abbrev pub sample_dialer : Dialer ℕ T
sample_dialer = record {
  new_client = λ o n. (tt, suc n);
  new_cluster_client = λ o n. (tt, suc n);
  ping = λ c ctx n. (ok tt, n);
  close = λ c n. (none, n - 1);
  parse_duration = λ s. ok (pos 7);
}

abbrev pub sample_clients : ClientCount sample_dialer (λ n. n)
sample_clients = record {
  client_opens = λ o n. refl;
  cluster_opens = λ o n. refl;
  ping_keeps = λ c ctx n. refl;
  close_closes = λ c n k h. omega (arith, h);
}

abbrev pub sample_crypto : Crypto ℕ T
sample_crypto = record {
  decode = λ s. (some (record { type = codes "PUBLIC KEY"; bytes = tt }), []);
  parse_certificate = λ x. ok true;
  parse_pkix_public_key = λ x. ok true;
  parse_pkcs1_public_key = λ x. ok tt;
  read_file = λ file n. (ok (codes "key"), n);
  parse_duration = λ s. ok (pos 7);
}

-- The object store, which has every bucket or cannot be reached.
abbrev pub sample_store : Bool → Library ℕ T T T T T
sample_store up = record {
  new = λ endpoint access secret token ssl region n. (if up then ok tt else err (plain []), n);
  bucket_exists = λ c ctx bucket n. (ok true, n);
  make_bucket = λ c ctx bucket region n. (ok tt, n);
  put_object = λ c ctx bucket key body size o n. (err (plain []), n);
  no_options = tt;
  set_range = λ o a b. ok tt;
  get_object = λ c ctx bucket key o n. (ok tt, n);
  stat = λ d n. (err (plain []), n);
  close = λ d n. (none, n);
  remove_object = λ c ctx bucket key n. (ok tt, n);
  stat_object = λ c ctx bucket key n. (err (plain []), n);
  list_objects = λ c ctx bucket prefix recursive n. ([], n);
  copy_object = λ c ctx bucket a b m n. (err (plain []), n);
  presigned_put_object = λ c ctx bucket key ttl n. (ok tt, n);
  presigned_get_object = λ c ctx bucket key ttl n. (ok tt, n);
}

abbrev pub sample_libraries : Bool → Libraries ℕ T T T T T T T T T Text Text
sample_libraries up = record {
  registerer = record { register = λ c n. (already, n) };
  drivers = sample_drivers;
  urls = sample_urls;
  dialer = sample_dialer;
  store = sample_store up;
  crypto = sample_crypto;
}

abbrev sample_database : DatabaseConfig
sample_database = record {
  driver = codes "pgx";
  dsn = codes "host=db dbname=app";
  max_open_conns = pos 50;
  max_idle_conns = pos 10;
  conn_max_lifetime = codes "1h";
  slow_threshold = [];
  log_level = codes "warn";
  auto_create_database = true;
  auto_create = false;
  maintenance_db = [];
  search_path = [];
  ssl_mode = [];
}

abbrev sample_redis_config : RedisConfig
sample_redis_config = record {
  mode = [];
  addr = codes "redis:6379";
  addrs = [];
  username = [];
  password = [];
  db = pos 0;
  dial_timeout = [];
  read_timeout = codes "3s";
  write_timeout = [];
  pool_size = pos 0;
}

abbrev sample_minio : MinioConfig
sample_minio = record {
  provider = codes "minio";
  endpoint = codes "minio:9000";
  access_key = codes "key";
  secret_key = codes "secret";
  session_token = [];
  bucket = codes "aisphere";
  region = [];
  use_ssl = false;
  auto_create_bucket = false;
}

abbrev sample_casdoor : Settings.Config
sample_casdoor = record {
  endpoint = codes "http://casdoor";
  client_id = codes "id";
  client_secret = codes "secret";
  certificate = codes "key";
  certificate_file = [];
  organization = codes "org";
  application = codes "app";
  permission_id = [];
  model_id = [];
  resource_id = [];
  enforcer_id = codes "org/enforcer";
  owner = [];
  policy_enforcer = [];
  policy_adapter_id = [];
  http_timeout = [];
  default_scope = [];
  allow_anonymous = false;
  audit_async = false;
  audit_queue = pos 0;
  audit_timeout = [];
  retry_attempts = pos 0;
  retry_backoff = [];
}

abbrev pub all_features : FeatureConfig
all_features = record {
  db = true;
  cache = true;
  s3 = true;
  authn = true;
  authz = true;
  audit = true;
  metrics = true;
  tracing = true;
  session = true;
  permission = true;
  sharing = false;
}

abbrev pub sample_config : Config
sample_config = record {
  app = record { name = codes "svc"; env = []; version = [] };
  server = record {
    http = record { addr = []; timeout = codes "10s" };
    grpc = record { addr = []; timeout = [] };
  };
  features = all_features;
  log = record { level = []; format = []; add_source = false };
  database = sample_database;
  redis = sample_redis_config;
  objectstore = sample_minio;
  casdoor = sample_casdoor;
  metrics = record { namespace = []; subsystem = [] };
  session = record { key_prefix = []; state_ttl = []; blacklist_prefix = [] };
  health = record { timeout = [] };
  shutdown = record { timeout = [] };
}
