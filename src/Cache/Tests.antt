-- ===== src/Cache/Tests.antt =====
-- cache: the theorems at concrete inputs.
use aisphere_kit.Base.{Text, [], ◌∷◌, Option, none, some, ok, ◌≡◌, ◌≢◌, refl, ◌==◌}
use aisphere_kit.Base.{ℕ, suc, ◌+◌, arith, ap, sym, is}
use aisphere_kit.Base.Clock.{ℤ, pos, Clock}
use aisphere_kit.Context.{Context}
use aisphere_kit.Cache.Lock.Waiting.{Ticks, Answers, lock_with_wait, lock_with_wait-Answers}
use aisphere_kit.Cache.Json.{Json, remember_json, get_json, set_json}
use aisphere_kit.Cache.Json.Remembering.{get_json-remember_json}
use aisphere_kit.Cache.Redis.{Redis, Store, hex}
use aisphere_kit.Cache.Lock.{Lock, try_lock, unlock, random_token, guarded}
use aisphere_kit.Cache.Lock.Ownership.{Acquired, lock_on, try_lock-excludes, unlock-owned}
use aisphere_kit.Cache.Sample.{sample_redis, sample_store}
use aisphere_kit.Samples.{al, doc, quiet}

abbrev redis : Redis (Option Text)
redis = sample_redis doc

abbrev token : Text
token = b'0' ∷ b'7' ∷ []

abbrev lock : Lock (Option Text)
lock = lock_on redis (sample_store doc) doc token

locked : try_lock (some redis) doc (pos 5) none ≡ (ok (some lock), some token)
unfolding try_lock random_token hex ◌==◌
locked = refl

unlocked : unlock (some lock) (some token) ≡ (ok tt, none)
unfolding unlock guarded ◌==◌
unlocked = refl

try_lock-excludes_example :
    Acquired redis (sample_store doc) doc lock none (some token)
    × ((ttl : ℤ) (m : Lock (Option Text)) (v : Option Text)
        → try_lock (some redis) doc ttl (some token) ≢ (ok (some m), v))
try_lock-excludes_example =
    try_lock-excludes redis (sample_store doc) doc (pos 5) lock none (some token) locked

unlock-owned_example :
    (Store.value (sample_store doc) (some token) doc ≡ some token)
    × (Store.value (sample_store doc) none doc ≡ none)
    × ((j : Text)
        → j ≢ doc
        → Store.value (sample_store doc) none j ≡ Store.value (sample_store doc) (some token) j)
unlock-owned_example = unlock-owned redis (sample_store doc) doc token (some token) none unlocked

-- A clock that ticks with each look at it, and a context that pauses until a timer.
abbrev ticking : Clock ℕ
ticking = record { now = λ n. (n, suc n) }

abbrev pausing : Context ℕ
pausing = record quiet { pause = λ p n. (none, n + p) }

abbrev ticks : Ticks ticking pausing none doc (pos 5) (pos 2) (pos 0)
unfolding try_lock
ticks = record {
  time = λ n. n;
  now_says = λ n. refl;
  now_on = λ n. omega arith;
  pause_on = λ p n n' h. omega (arith, ap (λ r. r.1) h);
  try_on = λ n. omega arith;
}

lock_with_wait-Answers_example :
    Answers ticking pausing none doc
      (pos 5)
      (pos 2)
      (pos 0)
      (lock_with_wait ticking pausing none doc (pos 5) (pos 2) (pos 0) 4 7)
lock_with_wait-Answers_example =
    lock_with_wait-Answers ticking pausing none doc (pos 5) (pos 2) (pos 0) ticks 7

-- A text is its own JSON text.
abbrev text_json : Json Text
text_json = record { marshal = λ t. ok t; unmarshal = λ t. ok t }

remembered : remember_json redis text_json doc (pos 5) (λ w. (ok al, w)) none ≡ (ok al, some al)
unfolding remember_json get_json set_json ◌==◌ is
remembered = refl

read_again : redis.get doc (some al) ≡ (ok (some al), some al)
unfolding ◌==◌
read_again = refl

get_json-remember_json_example : get_json redis text_json doc (some al) ≡ (ok al, some al)
get_json-remember_json_example =
    get_json-remember_json redis (sample_store doc) text_json doc (pos 5) (λ w. (ok al, w)) al none
      (some al) (some al) (some al) (λ b h. sym h) remembered read_again
