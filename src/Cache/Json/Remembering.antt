-- ===== src/Cache/Json/Remembering.antt =====
-- cache/json.go: a value that was remembered is found again.
use aisphere_kit.Base.{
  Text, Bool, true, false, Option, none, some, Result, ok, err, Io, Error, Sentinel, is, and_then,
  and_then-ok, ◌≡◌, refl, sym, ap, ◌∙◌, arith,
}
use aisphere_kit.Base.Clock.{ℤ}
use aisphere_kit.Cache.Redis.{Redis, Store}
use aisphere_kit.Cache.Json.{
  Json, set_text, set_json, decoded, get_json, beside, store, after_get, remember_json,
}

module _ {W T : Type 0} (r : Redis W) (redis : Store r) (json : Json T) where
  -- Unmarshal reads this value from what Marshal wrote of it.
  abbrev pub ReadsBack : T → Type 0
  ReadsBack v = (b : Text) → json.marshal v ≡ ok b → json.unmarshal b ≡ ok v

  -- The key has the text of a value.
  abbrev pub Holds : Text → T → W → Type 0
  Holds key v w = (b : Text) × (redis.value w key ≡ some b) × (json.unmarshal b ≡ ok v)

  abbrev failing : Error → W → Result T × W
  failing e w = (err e, w)

  decoded-Holds :
      (key : Text) (v : T) (o : Option Text) (w w' : W)
      → redis.value w key ≡ o
      → decoded r json o w ≡ (ok v, w')
      → Holds key v w'
  decoded-Holds key v none w w' e h = absurd (ground arith)
  decoded-Holds key v (some b) w w' e h =
      (b, ap (λ p. redis.value p.1 key) (sym h) ∙ e, ap (λ p. p.0) h)

  get_json-Holds :
      (key : Text) (v : T) (w w' : W) → get_json r json key w ≡ (ok v, w') → Holds key v w'
  unfolding get_json
  get_json-Holds key v w w' h =
      let (o, u, got, d) = and_then-ok (decoded r json) (r.get key w) v w' h in
      let (read, kept) = redis.get_says key w u o got in
      decoded-Holds key v o u w' (kept ∙ sym read) d

  beside-ok :
      (v u : T) (q : Result (Unit {0}) × W) (w' : W)
      → beside r json v q ≡ (ok u, w')
      → (q ≡ (ok tt, w')) × (v ≡ u)
  beside-ok v u (ok tt, w) w' h = (ap (λ p. (ok tt, p.1)) h, cc)
  beside-ok v u (err e, w) w' h = absurd (ground arith)

  marshal-ok :
      (v : T) (q : Result Text) (f : Text → W → Result (Unit {0}) × W) (w w' : W)
      → and_then f (q, w) ≡ (ok tt, w')
      → (b : Text) × (q ≡ ok b) × (f b w ≡ (ok tt, w'))
  marshal-ok v (ok b) f w w' h = (b, refl, h)
  marshal-ok v (err e) f w w' h = absurd (ground arith)

  store-Holds :
      (key : Text) (ttl : ℤ) (v u : T) (w w' : W)
      → ReadsBack u
      → store r json key ttl v w ≡ (ok u, w')
      → Holds key u w'
  unfolding set_json
  store-Holds key ttl v u w w' reads h =
      let (done, same) = beside-ok v u (set_json r json key v ttl w) w' h in
      let (b, m, put) = marshal-ok v (json.marshal v) (set_text r json key ttl) w w' done in
      (b, redis.set_value key b ttl w w' put, reads b (ap json.marshal (sym same) ∙ m))

  failed_found : (v : T) (e : Error) (w w' : W) → failing e w ≡ (ok v, w') → ⊥
  failed_found v e w w' h = ground arith

  missed-Holds :
      (key : Text) (ttl : ℤ) (load : Io W T) (v : T) (e : Error) (w w' : W) (b : Bool)
      → ReadsBack v
      → is e Sentinel.cache_miss ≡ b
      → after_get r json key ttl load (err e, w) ≡ (ok v, w')
      → Holds key v w'
  missed-Holds key ttl load v e w w' true reads p h =
      let (u, x, loaded, stored) = and_then-ok (store r json key ttl) (load w) v w' (rw p at h) in
      store-Holds key ttl u v x w' reads stored
  missed-Holds key ttl load v e w w' false reads p h = absurd (failed_found v e w w' (rw p at h))

  after_get-Holds :
      (key : Text) (ttl : ℤ) (load : Io W T) (v : T) (q : Result T × W) (w w' : W)
      → ReadsBack v
      → get_json r json key w ≡ q
      → after_get r json key ttl load q ≡ (ok v, w')
      → Holds key v w'
  after_get-Holds key ttl load v (ok u, x) w w' reads g h = get_json-Holds key v w w' (g ∙ h)
  after_get-Holds key ttl load v (err e, x) w w' reads g h =
      missed-Holds key ttl load v e x w' _ reads refl h

  read_back :
      (key : Text) (v : T) (w w' : W) (o : Option Text)
      → Holds key v w
      → o ≡ redis.value w key
      → and_then (decoded r json) (ok o, w') ≡ (ok v, w')
  read_back key v w w' o (b, has, reads) e = rw (e, has, reads) refl

  -- A value that RememberJSON answers, whether it was found or loaded, is what a GetJSON of the key right
  -- after it answers, when Redis answers that GetJSON, and Unmarshal reads the value back from the text
  -- that Marshal makes of it.
  pub get_json-remember_json :
      (key : Text) (ttl : ℤ) (load : Io W T) (v : T) (w w' w'' : W) (o : Option Text)
      → ReadsBack v
      → remember_json r json key ttl load w ≡ (ok v, w')
      → r.get key w' ≡ (ok o, w'')
      → get_json r json key w' ≡ (ok v, w'')
  unfolding get_json remember_json
  get_json-remember_json key ttl load v w w' w'' o reads h g = rw g (
      read_back key v w' w'' o
        (after_get-Holds key ttl load v (get_json r json key w) w w' reads refl h)
        (redis.get_says key w' w'' o g).0)
