-- ===== src/Session.antt =====
-- session/session.go: OAuth states and revoked tokens in Redis.
use aisphere_kit.Base.{
  Text, codes, Bool, true, false, List, [], ◌∷◌, ◌++◌, Option, none, some, Result, ok, err, Io,
  pure, fail, ◌>>=◌, ◌>>◌, and_then, plain, sentinel, Sentinel, is_empty, if◌then◌else◌, trim_space,
  join, ℕ, eqb, ltb, ◌*◌,
}
use aisphere_kit.Base.Clock.{ℤ, pos, not_positive, second}
use aisphere_kit.Cache.Redis.{Redis, hex}
mod Tests
pub mod States
pub mod Revocations

pub record Config : Type 0 where
  pub key_prefix : Text
  pub state_ttl : Text
  pub blacklist_prefix : Text

-- The SHA-256 of a token in hexadecimal digits, and time.ParseDuration, from the standard library.
pub record Platform : Type 0 where
  pub hash_token : Text → Text
  pub parse_duration : Text → Option ℤ

-- A nil manager is `none : Option (Manager W)`.
pub record Manager (W : Type 0) : Type 0 where
  pub rdb : Option (Redis W)
  pub cfg : Config

-- `if s == "" { s = t }`
abbrev or_default : Text → Text → Text
or_default [] t = t
or_default (c ∷ s) t = c ∷ s

unfoldable pub with_defaults : Config → Config
with_defaults cfg =
    let prefix = or_default cfg.key_prefix (codes "aisphere:session") in
    record {
      key_prefix = prefix;
      blacklist_prefix = or_default cfg.blacklist_prefix (prefix ++ codes ":blacklist");
      state_ttl = or_default cfg.state_ttl (codes "10m");
    }

unfoldable pub new_manager : {W : Type 0} → Option (Redis W) → Config → Manager W
unfolding with_defaults
new_manager rdb cfg = record { rdb = rdb; cfg = with_defaults cfg }

-- strings.TrimSuffix(s, ":")
unfoldable pub trim_colon : Text → Text
trim_colon [] = []
trim_colon (c ∷ []) = if eqb c b':' then [] else c ∷ []
trim_colon (c ∷ d ∷ s) = c ∷ trim_colon (d ∷ s)

unfoldable pub key : Config → List Text → Text
key cfg parts = join (trim_colon cfg.key_prefix ∷ parts) b':'

unfoldable pub blacklist_key : Platform → Config → Text → Text
blacklist_key platform cfg token =
    trim_colon cfg.blacklist_prefix ++ (b':' ∷ platform.hash_token token)

abbrev usable_or : ℤ → Option ℤ → ℤ
usable_or fallback none = fallback
usable_or fallback (some d) = if not_positive d then fallback else d

unfoldable pub parse_duration_or : Platform → Text → ℤ → ℤ
parse_duration_or platform s fallback = usable_or fallback (platform.parse_duration s)

-- `m.rdb`, and nil for a nil manager.
abbrev pub redis_of : {W : Type 0} → Option (Manager W) → Option (Redis W × Config)
redis_of none = none
redis_of (some m) = elim m.rdb [ none ↦ none | some r ↦ some (r, m.cfg) ]

unfoldable pub state_key : Config → Text → Text
unfolding key
state_key cfg state = key cfg (codes "oauth_state" ∷ state ∷ [])

module _ {W : Type 0} where
  abbrev pub with_redis :
      {A : Type 0} → Option (Redis W × Config) → (Redis W → Config → Io W A) → Io W A
  with_redis none f = fail (plain (codes "session redis is nil"))
  with_redis (some (r, cfg)) f = f r cfg

  -- redis.Nil means that there is no such state.
  abbrev pub found : Option Text → Io W Text
  found none = fail (sentinel Sentinel.state_mismatch)
  found (some subject) = pure subject

  abbrev pub take_state : Text → Redis W → Config → Io W Text
  take_state state r cfg =
      if is_empty (trim_space state)
      then fail (sentinel Sentinel.state_mismatch)
      else r.get_del (state_key cfg state) >>= found

  unfoldable pub verify_state : Option (Manager W) → Text → Io W Text
  verify_state m state = with_redis (redis_of m) (take_state state)

-- The lifetime of a state: ten minutes, where the setting is not usable.
abbrev pub state_life : Platform → Config → ℤ
state_life platform cfg = parse_duration_or platform cfg.state_ttl (pos (600 * second))

module _ {W : Type 0} (platform : Platform) where
  abbrev pub store_state : Text → Redis W → Config → Text → Io W Text
  store_state subject r cfg state =
      r.set (state_key cfg state) subject (state_life platform cfg) >> pure state

  abbrev pub create_state : Text → Redis W → Config → Io W Text
  create_state subject r cfg = r.random 24 >>= λ bytes. store_state subject r cfg (hex bytes)

  unfoldable pub new_state : Option (Manager W) → Text → Io W Text
  new_state m subject = with_redis (redis_of m) (create_state subject)

  abbrev pub revoke_known : Text → ℤ → Redis W → Config → Io W (Unit {0})
  revoke_known token ttl r cfg =
      if is_empty (trim_space token)
      then pure tt
      else r.set (blacklist_key platform cfg token) (codes "1")
          (if not_positive ttl then pos (86_400 * second) else ttl)

  unfoldable pub revoke_token : Option (Manager W) → Text → ℤ → Io W (Unit {0})
  revoke_token m token ttl = with_redis (redis_of m) (revoke_known token ttl)

  -- `v > 0`
  abbrev pub revoked_by : Option (Redis W × Config) → Text → Io W Bool
  revoked_by none token = pure false
  revoked_by (some (r, cfg)) token =
      if is_empty (trim_space token)
      then pure false
      else r.exists (blacklist_key platform cfg token) >>= λ n. pure (ltb 0 n)

  unfoldable pub is_revoked : Option (Manager W) → Text → Io W Bool
  is_revoked m token = revoked_by (redis_of m) token
