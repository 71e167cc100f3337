-- ===== src/Cache/Lock.antt =====
-- cache/lock.go: the distributed lock. A nil *Lock is `none`.
use aisphere_kit.Base.{
  Text, codes, Bool, true, false, List, [], ◌∷◌, ◌++◌, Option, none, some, Result, ok, err, Io,
  pure, fail, ◌>>=◌, and_then, plain, is_empty, if◌then◌else◌, ◌==◌, ℕ, ◌/◌, eqb,
}
use aisphere_kit.Base.Clock.{ℤ, pos, negsuc, not_positive, millisecond}
use aisphere_kit.Cache.Redis.{Redis, Server, hex}
pub mod Ownership
pub mod Waiting

pub record Lock (W : Type 0) : Type 0 where
  pub client : Redis W
  pub key : Text
  pub token : Text

unfoldable pub random_token : {W : Type 0} → Redis W → Io W Text
random_token r = do bytes ← r.random 16; pure (hex bytes)

-- redis.call("GET", KEYS[1]) == ARGV[1]; a missing key is `false` in Lua.
abbrev pub is_token : Text → Option Text → Bool
is_token token none = false
is_token token (some v) = v == token

abbrev milliseconds : ℤ → ℕ
milliseconds (pos n) = n / millisecond
milliseconds (negsuc n) = 0

module _ {W : Type 0} where
  -- What TryLock returns beside an error: the lock, which is nil where it was not acquired.
  abbrev pub acquired : Redis W → Text → Text → Bool → Io W (Option (Lock W))
  acquired r key token true = pure (some (record { client = r; key = key; token = token }))
  acquired r key token false = pure none

  abbrev pub try_known : Redis W → Text → ℤ → Io W (Option (Lock W))
  try_known r key ttl = do
    token ← random_token r
    set ← r.set_nx key token ttl
    acquired r key token set

  unfoldable pub try_lock : Option (Redis W) → Text → ℤ → Io W (Option (Lock W))
  try_lock none key ttl = fail (plain (codes "redis client is nil"))
  try_lock (some r) key ttl =
      if is_empty key
      then fail (plain (codes "lock key is required"))
      else if not_positive ttl
      then fail (plain (codes "lock ttl must be positive"))
      else try_known r key ttl

  -- The two scripts: the command on the key where it holds the token, and 0 where it does not.
  unfoldable pub guarded : Server W → Text → Text → (W → ℕ × W) → W → ℕ × W
  guarded server key token command w =
      let (v, w₁) = server.get key w in if is_token token v then command w₁ else (0, w₁)

  unfoldable pub refresh : Option (Lock W) → ℤ → Io W Bool
  refresh none ttl = pure false
  refresh (some l) ttl =
      if not_positive ttl
      then fail (plain (codes "lock ttl must be positive"))
      else l.client.eval
          (guarded l.client.server l.key l.token (l.client.server.pexpire l.key (milliseconds ttl)))
        >>= λ n. pure (eqb n 1)

  abbrev pub unless_lost : Text → ℕ → Io W (Unit {0})
  unless_lost key n =
      if eqb n 0
      then fail (plain (codes "lock " ++ (key ++ codes " is not owned by current token")))
      else pure tt

  unfoldable pub unlock : Option (Lock W) → Io W (Unit {0})
  unlock none = pure tt
  unlock (some l) =
      l.client.eval (guarded l.client.server l.key l.token (l.client.server.del l.key))
      >>= unless_lost l.key

  -- Token and Key
  unfoldable pub token_of : Option (Lock W) → Text
  token_of none = []
  token_of (some l) = l.token

  unfoldable pub key_of : Option (Lock W) → Text
  key_of none = []
  key_of (some l) = l.key
