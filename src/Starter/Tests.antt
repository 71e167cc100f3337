-- ===== src/Starter/Tests.antt =====
-- starter: the theorems at concrete inputs.
use Prim.Native.Nat.{ℕ}
use aisphere_kit.Base.{
  Error, ◌≢◌, any, arith, join, cut, trim, trim_left, trim_right, is_space, Succeeds, none, some,
  ok, plain, false, true, codes, ◌==◌, trim_space, [], ◌≡◌, refl,
}
use aisphere_kit.Base.Search.{
  fields, fields_from, contains_any, contains_text, replace_all, replace_pair, has_prefix,
}
use aisphere_kit.Db.Dsn.{
  postgres_maintenance_dsn, split_keyword_dsn, put, lookup, join_keyword_dsn, ordered, unordered,
  quote_keyword_value, split_fields,
}
use aisphere_kit.Db.Connect.Opening.{IsMaintained}
use aisphere_kit.Metrics.{already, refused}
use aisphere_kit.Db.Settings.{normalize}
use aisphere_kit.Casdoor.Certificate.{normalized_certificate}
use aisphere_kit.Config.Types.{Config}
use aisphere_kit.Config.Tree.{empty, merge_map}
use aisphere_kit.Config.Env.{apply_env}
use aisphere_kit.Config.Validate.{validate}
use aisphere_kit.Config.Load.{Formats, with_casdoor_defaults, merge_files, load}
use aisphere_kit.Starter.{empty_runtime}
use aisphere_kit.Starter.Kit.Whole.{KitLaws}
use aisphere_kit.Starter.Starting.{IsUp, IsComplete}
use aisphere_kit.Starter.Serve.{env_or, load_config, new_runtime_from_config}
use aisphere_kit.Starter.Serve.Whole.{Quiet, from_config-Starts}
use aisphere_kit.Starter.Sample.{
  sample_config, sample_libraries, sample_pools, sample_clients, sample_drivers, sample_urls,
}
use aisphere_kit.Samples.{al}

-- The object store cannot be reached, after the database and Redis were opened.
abbrev kit_laws : KitLaws (sample_libraries false) (λ n. n)
kit_laws = record {
  pools = sample_pools;
  clients = sample_clients;
  register_keeps = λ c n. refl;
  store_keeps = λ endpoint access secret token ssl region n. refl;
  exists_keeps = λ k ctx bucket n. refl;
  make_keeps = λ k ctx bucket region n. refl;
  file_keeps = λ file n. refl;
}

abbrev loaded_config : Config
loaded_config = with_casdoor_defaults sample_config

-- Files that say nothing, and a decoder that always answers the same settings.
abbrev sample_formats : Formats ℕ
sample_formats = record {
  tree_of = λ c. empty;
  parse_yaml = λ b. ok empty;
  decode = λ t. ok sample_config;
  environ = λ n. ([], n);
  getenv = λ k n. ([], n);
  to_lower = λ s. s;
}

abbrev quiet_formats :
    Quiet (sample_libraries false) sample_formats (plain al) none (λ n. n) kit_laws
quiet_formats = record { environ_keeps = λ n. refl; getenv_keeps = λ k n. refl }

named :
    postgres_maintenance_dsn sample_urls loaded_config.database.dsn
      loaded_config.database.maintenance_db
    ≡ ok (codes "app", codes "host=db dbname=postgres")
unfolding postgres_maintenance_dsn trim_left trim_right split_keyword_dsn split_fields fields
    fields_from cut trim is_space contains_any put lookup join_keyword_dsn ordered unordered
    quote_keyword_value trim_space has_prefix codes ◌==◌ join any
named = refl

accepted : (e : Error) → already ≢ refused e
accepted e h = ground arith

maintained : IsMaintained sample_drivers sample_urls none loaded_config.database
maintained = record {
  target = codes "app";
  dsn = codes "host=db dbname=postgres";
  named = named;
  given = unfold codes in refl;
  opens = λ l n. refl;
  looks = λ s n. refl;
  creates = λ s n. refl;
}

abbrev up : IsUp (sample_libraries true) none loaded_config
up = record {
  metrics = λ on. record {
    requests = λ n. accepted;
    duration = λ n. accepted;
    dependency_duration = λ n. accepted;
    dependency_errors = λ n. accepted;
  };
  database = λ on. record {
    opens = λ d h l n. refl;
    finds = λ g n. refl;
    pings = λ s n. refl;
    maintained = λ h wanted. maintained;
  };
  redis = λ on. record { single = λ h n. refl; cluster = λ h n. refl };
  store = λ on. record { opens = λ n. refl; exists = λ k n. refl; makes = λ h k n. refl };
  file = λ w v. refl;
}

complete : IsComplete (sample_libraries true) none loaded_config
unfolding codes
complete = record { lifetime = λ on e. refl; threshold = λ on e. refl; keys = λ on. refl }

loads : (load_config (sample_libraries true) sample_formats [] 5).0 ≡ (some loaded_config, none)
unfolding load_config env_or load merge_files merge_map apply_env validate codes normalize ◌==◌
    normalized_certificate trim_space contains_text replace_all replace_pair has_prefix
loads = refl

from_config-Starts_example : Succeeds (
    new_runtime_from_config
      (sample_libraries true)
      sample_formats
      (plain al)
      none
      []
      empty_runtime
      5)
from_config-Starts_example =
    from_config-Starts (sample_libraries true) sample_formats (plain al) none empty_runtime [] 5
      loaded_config loads up complete
