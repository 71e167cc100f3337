-- ===== src/Config/Validate.antt =====
-- config/config.go: Validate, which collects what is wrong with the settings, and ParseDurationOr.
use aisphere_kit.Base.{
  Text, codes, Bool, ◌&&◌, ◌||◌, not, List, [], ◌∷◌, ◌++◌, Option, Result, ok, err, Error, plain,
  wrapped, join_errors, concat, is_empty, if◌then◌else◌, ◌==◌,
}
use aisphere_kit.Base.Clock.{ℤ}
use aisphere_kit.Db.Settings.{DatabaseConfig, normalize}
use aisphere_kit.Cache.Connect.{RedisConfig}
use aisphere_kit.ObjectStore.{MinioConfig}
use aisphere_kit.Casdoor.Settings
use aisphere_kit.Casdoor.Certificate.{Crypto, normalized_certificate}
use aisphere_kit.Config.Types.{Config, EndpointConfig}

-- `if b { errs = append(errs, err) }`
abbrev pub problem_if : Bool → Text → List Error
problem_if b m = if b then plain m ∷ [] else []

abbrev pub problem_in : {A : Type 0} → Text → Result A → List Error
problem_in before (ok a) = []
problem_in before (err e) = wrapped before e [] ∷ []

abbrev pub problem_of : {A : Type 0} → Result A → List Error
problem_of (ok a) = []
problem_of (err e) = e ∷ []

-- The problems of a part whose feature is on.
abbrev pub when : Bool → List Error → List Error
when b es = if b then es else []

abbrev pub database_problems : DatabaseConfig → List Error
database_problems c =
    problem_of (normalize c) ++ problem_if (is_empty c.dsn) (codes "database.dsn is required")

abbrev pub redis_problems : RedisConfig → List Error
redis_problems c =
    if is_empty c.mode || c.mode == codes "single"
    then problem_if (is_empty c.addr) (codes "redis.addr is required")
    else if c.mode == codes "cluster"
    then problem_if (is_empty c.addrs) (codes "redis.addrs is required")
    else plain (codes "redis.mode only supports single or cluster") ∷ []

abbrev pub store_problems : MinioConfig → List Error
store_problems c =
    problem_if (not (is_empty c.provider) && not (c.provider == codes "minio"))
      (codes "objectstore.provider only supports minio")
    ++ problem_if (is_empty c.endpoint || is_empty c.bucket)
        (codes "objectstore.endpoint and bucket are required")

abbrev pub casdoor_problems : Settings.Config → List Error
casdoor_problems c =
    problem_if
      (is_empty c.endpoint
        || is_empty c.client_id
        || is_empty c.client_secret
        || is_empty c.organization
        || is_empty c.application)
      (codes "casdoor endpoint/client_id/client_secret/organization/application are required")

-- The test `selectors == 0`.
abbrev pub no_selectors : Settings.Config → Bool
no_selectors c =
    is_empty c.permission_id
    && is_empty c.model_id
    && is_empty c.resource_id
    && is_empty c.enforcer_id
    && is_empty c.owner

abbrev pub authz_problems : Settings.Config → List Error
authz_problems c = problem_if (no_selectors c) (
    codes
      "one of casdoor permission_id/model_id/resource_id/enforcer_id/owner is required for authz")

abbrev pub permission_problems : Settings.Config → List Error
permission_problems c =
    problem_if (is_empty c.policy_enforcer && is_empty c.enforcer_id)
      (codes "casdoor.policy_enforcer or casdoor.enforcer_id is required for permission management")

module _ {W X : Type 0} (crypto : Crypto W X) where
  abbrev parsed_or : ℤ → Result ℤ → ℤ
  parsed_or fallback (ok d) = d
  parsed_or fallback (err e) = fallback

  unfoldable pub parse_duration_or : Text → ℤ → ℤ
  parse_duration_or s fallback =
      if is_empty s then fallback else parsed_or fallback (crypto.parse_duration s)

  abbrev pub timeout_problems : Text → EndpointConfig → List Error
  timeout_problems name c =
      if is_empty c.timeout then [] else problem_in name (crypto.parse_duration c.timeout)

  -- What Validate finds, check by check, where `certificate` is what it finds about the certificate.
  abbrev pub checks : Config → List Error → List (List Error)
  checks c certificate =
      problem_if (is_empty c.app.name) (codes "app.name is required")
      ∷ timeout_problems (codes "server.http.timeout: ") c.server.http
      ∷ timeout_problems (codes "server.grpc.timeout: ") c.server.grpc
      ∷ when c.features.db (database_problems c.database)
      ∷ when c.features.cache (redis_problems c.redis)
      ∷ when c.features.s3 (store_problems c.objectstore)
      ∷ problem_if (c.features.session && not c.features.cache)
          (codes "features.session requires features.cache")
      ∷ problem_if c.features.sharing
          (codes "features.sharing is deprecated; use features.permission with Casdoor/Casbin")
      ∷ when (c.features.authn || c.features.authz || c.features.audit || c.features.permission)
          (casdoor_problems c.casdoor)
      ∷ certificate
      ∷ when c.features.authz (authz_problems c.casdoor)
      ∷ when c.features.permission (permission_problems c.casdoor)
      ∷ []

  abbrev pub certificate_problems : Result Text × W → List Error × W
  certificate_problems (r, w) = (problem_in (codes "casdoor jwt certificate: ") r, w)

  abbrev pub certificate_step : Config → W → List Error × W
  certificate_step c w =
      if c.features.authn
      then certificate_problems (normalized_certificate crypto c.casdoor w)
      else ([], w)

  abbrev pub validated : Config → List Error × W → Option Error × W
  validated c (es, w) = (join_errors (concat (checks c es)), w)

  unfoldable pub validate : Config → W → Option Error × W
  unfolding concat
  validate c w = validated c (certificate_step c w)
