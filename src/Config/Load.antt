-- ===== src/Config/Load.antt =====
-- config/config.go: Default and Load. YAML, JSON and the process are a parameter of the model.
use aisphere_kit.Base.{
  Text, codes, Bool, true, false, List, [], ◌∷◌, ◌++◌, Option, none, some, Result, ok, err, Error,
  wrapped, is_empty, if◌then◌else◌,
}
use aisphere_kit.Base.Clock.{pos}
use aisphere_kit.Casdoor.Settings
use aisphere_kit.Casdoor.Certificate.{Crypto}
use aisphere_kit.Config.Types.{Config}
use aisphere_kit.Config.Tree.{Table, merge_map}
use aisphere_kit.Config.Env.{apply_env}
use aisphere_kit.Config.Validate.{validate}
pub mod Checked

abbrev no_casdoor : Settings.Config
no_casdoor = record {
  endpoint = [];
  client_id = [];
  client_secret = [];
  certificate = [];
  certificate_file = [];
  organization = [];
  application = [];
  permission_id = [];
  model_id = [];
  resource_id = [];
  enforcer_id = [];
  owner = [];
  policy_enforcer = [];
  policy_adapter_id = [];
  http_timeout = [];
  default_scope = [];
  allow_anonymous = false;
  audit_async = false;
  audit_queue = pos 0;
  audit_timeout = [];
  retry_attempts = pos 0;
  retry_backoff = [];
}

-- Default
unfoldable pub default_config : Config
default_config = record {
  app = record { name = []; env = codes "dev"; version = codes "dev" };
  server = record {
    http = record { addr = codes "0.0.0.0:8000"; timeout = codes "10s" };
    grpc = record { addr = codes "0.0.0.0:9000"; timeout = codes "10s" };
  };
  features = record {
    db = true;
    cache = true;
    s3 = true;
    authn = true;
    authz = true;
    audit = true;
    metrics = true;
    tracing = true;
    session = true;
    permission = true;
    sharing = false;
  };
  log = record { level = codes "info"; format = codes "json"; add_source = false };
  database = record {
    driver = codes "mysql";
    dsn = [];
    max_open_conns = pos 50;
    max_idle_conns = pos 10;
    conn_max_lifetime = codes "1h";
    slow_threshold = codes "500ms";
    log_level = codes "warn";
    auto_create_database = false;
    auto_create = false;
    maintenance_db = codes "postgres";
    search_path = [];
    ssl_mode = [];
  };
  redis = record {
    mode = codes "single";
    addr = codes "127.0.0.1:6379";
    addrs = [];
    username = [];
    password = [];
    db = pos 0;
    dial_timeout = codes "5s";
    read_timeout = codes "3s";
    write_timeout = codes "3s";
    pool_size = pos 0;
  };
  objectstore = record {
    provider = codes "minio";
    endpoint = codes "127.0.0.1:9000";
    access_key = [];
    secret_key = [];
    session_token = [];
    bucket = codes "aisphere";
    region = [];
    use_ssl = false;
    auto_create_bucket = false;
  };
  casdoor = no_casdoor;
  metrics = record { namespace = codes "aisphere"; subsystem = [] };
  session = record {
    key_prefix = codes "aisphere:session";
    state_ttl = codes "10m";
    blacklist_prefix = [];
  };
  health = record { timeout = codes "2s" };
  shutdown = record { timeout = codes "15s" };
}

-- gopkg.in/yaml.v3, encoding/json and os. `tree_of` is what Marshal and Unmarshal make of a Config, and
-- `decode` what the JSON text of a tree is read as.
pub record Formats (W : Type 0) : Type 0 where
  pub tree_of : Config → Table
  pub parse_yaml : Text → Result Table
  pub decode : Table → Result Config
  pub environ : W → List Text × W
  pub getenv : Text → W → Text × W
  pub to_lower : Text → Text

-- What Load sets where it is empty.
abbrev pub with_casdoor_defaults : Config → Config
with_casdoor_defaults cfg = record cfg {
  casdoor = record cfg.casdoor {
    http_timeout =
        if is_empty cfg.casdoor.http_timeout then codes "10s" else cfg.casdoor.http_timeout;
    default_scope =
        if is_empty cfg.casdoor.default_scope
        then codes "openid profile email"
        else cfg.casdoor.default_scope;
  };
}

module _ {W X : Type 0} (crypto : Crypto W X) (formats : Formats W) where
  abbrev parsed : Text → Table → Result Table → Result Table
  parsed path tree (ok current) = ok (merge_map tree current)
  parsed path tree (err e) = err (wrapped (codes "parse config " ++ (path ++ codes ": ")) e [])

  abbrev pub merge_file : Text → Table → Result Text × W → Result Table × W
  merge_file path tree (ok b, w) = (parsed path tree (formats.parse_yaml b), w)
  merge_file path tree (err e, w) =
      (err (wrapped (codes "load config " ++ (path ++ codes ": ")) e []), w)

  abbrev pub merge_path : Text → Table → W → Result Table × W
  merge_path path tree w =
      if is_empty path then (ok tree, w) else merge_file path tree (crypto.read_file path w)

  -- The loop over the paths.
  unfoldable pub merge_files : List Text → Result Table × W → Result Table × W
  unfolding merge_map
  merge_files [] r = r
  merge_files (path ∷ paths) (err e, w) = (err e, w)
  merge_files (path ∷ paths) (ok tree, w) = merge_files paths (merge_path path tree w)

  abbrev pub with_env : Table → List Text × W → Table × W
  with_env tree (kvs, w) = (apply_env formats.to_lower tree (codes "AISPHERE_") kvs, w)

  -- The settings are returned with what is wrong with them.
  abbrev pub beside : Config → Option Error × W → (Option Config × Option Error) × W
  beside cfg (e, w) = ((some cfg, e), w)

  abbrev pub finish : Result Config → W → (Option Config × Option Error) × W
  finish (err e) w = ((none, some (wrapped (codes "decode config: ") e [])), w)
  finish (ok cfg) w =
      beside (with_casdoor_defaults cfg) (validate crypto (with_casdoor_defaults cfg) w)

  abbrev pub decoded : Table × W → (Option Config × Option Error) × W
  decoded (tree, w) = finish (formats.decode tree) w

  abbrev pub loaded : Result Table × W → (Option Config × Option Error) × W
  loaded (err e, w) = ((none, some e), w)
  loaded (ok tree, w) = decoded (with_env tree (formats.environ w))

  unfoldable pub load : List Text → W → (Option Config × Option Error) × W
  unfolding default_config merge_files apply_env validate
  load paths w = loaded (merge_files paths (ok (formats.tree_of default_config), w))
