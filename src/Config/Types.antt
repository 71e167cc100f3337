-- ===== src/Config/Types.antt =====
-- config/config.go: the settings by the part of the service that they are for. The settings of a part
-- that another package builds are declared by that package.
use aisphere_kit.Base.{Text, Bool}
use aisphere_kit.Db.Settings.{DatabaseConfig}
use aisphere_kit.Cache.Connect.{RedisConfig}
use aisphere_kit.ObjectStore.{MinioConfig}
use aisphere_kit.Casdoor.Settings
use aisphere_kit.Session

pub record AppConfig : Type 0 where
  pub name : Text
  pub env : Text
  pub version : Text

pub record EndpointConfig : Type 0 where
  pub addr : Text
  pub timeout : Text

pub record ServerConfig : Type 0 where
  pub http : EndpointConfig
  pub grpc : EndpointConfig

pub record FeatureConfig : Type 0 where
  pub db : Bool
  pub cache : Bool
  pub s3 : Bool
  pub authn : Bool
  pub authz : Bool
  pub audit : Bool
  pub metrics : Bool
  pub tracing : Bool
  pub session : Bool
  pub permission : Bool
  pub sharing : Bool

-- logx.Config
pub record LogConfig : Type 0 where
  pub level : Text
  pub format : Text
  pub add_source : Bool

-- metrics.Config
pub record MetricsConfig : Type 0 where
  pub namespace : Text
  pub subsystem : Text

pub record HealthConfig : Type 0 where
  pub timeout : Text

pub record ShutdownConfig : Type 0 where
  pub timeout : Text

pub record Config : Type 0 where
  pub app : AppConfig
  pub server : ServerConfig
  pub features : FeatureConfig
  pub log : LogConfig
  pub database : DatabaseConfig
  pub redis : RedisConfig
  pub objectstore : MinioConfig
  pub casdoor : Settings.Config
  pub metrics : MetricsConfig
  pub session : Session.Config
  pub health : HealthConfig
  pub shutdown : ShutdownConfig
