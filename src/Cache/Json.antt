-- ===== src/Cache/Json.antt =====
-- cache/json.go: values in Redis by their JSON text. encoding/json is a parameter of the model.
use aisphere_kit.Base.{
  Text, Option, none, some, Result, ok, err, Io, Error, sentinel, Sentinel, is, lift, ◌>>=◌,
  and_then, if◌then◌else◌,
}
use aisphere_kit.Base.Clock.{ℤ}
use aisphere_kit.Cache.Redis.{Redis}
pub mod Remembering

-- json.Marshal, and json.Unmarshal into a zero value.
pub record Json (T : Type 0) : Type 0 where
  pub marshal : T → Result Text
  pub unmarshal : Text → Result T

module _ {W T : Type 0} (r : Redis W) (json : Json T) where
  abbrev pub set_text : Text → ℤ → Text → Io W (Unit {0})
  set_text key ttl b = r.set key b ttl

  unfoldable pub set_json : Text → T → ℤ → Io W (Unit {0})
  set_json key v ttl = lift (json.marshal v) >>= set_text key ttl

  abbrev pub decoded : Option Text → Io W T
  decoded none w = (err (sentinel Sentinel.cache_miss), w)
  decoded (some b) w = (json.unmarshal b, w)

  unfoldable pub get_json : Text → Io W T
  get_json key = r.get key >>= decoded

  -- `return v, SetJSON(...)`, without the value that stands beside an error.
  abbrev pub beside : T → Result (Unit {0}) × W → Result T × W
  beside v (ok u, w) = (ok v, w)
  beside v (err e, w) = (err e, w)

  abbrev pub store : Text → ℤ → T → Io W T
  store key ttl v w = beside v (set_json key v ttl w)

  abbrev pub after_get : Text → ℤ → Io W T → Result T × W → Result T × W
  after_get key ttl load (ok v, w) = (ok v, w)
  after_get key ttl load (err e, w) =
      if is e Sentinel.cache_miss then and_then (store key ttl) (load w) else (err e, w)

  unfoldable pub remember_json : Text → ℤ → Io W T → Io W T
  unfolding set_json get_json
  remember_json key ttl load w = after_get key ttl load (get_json key w)
