-- ===== src/Cache/Redis.antt =====
-- The commands of Redis that the packages cache and session send through github.com/redis/go-redis.
-- The client and the server are not part of the repository: they are a parameter of the model, and
-- what the packages rely on is the record `Store`.
use aisphere_kit.Base.{
  Text, Bool, true, false, List, [], ◌∷◌, Option, none, some, ok, Io, ◌≡◌, ◌≢◌, ℕ, ◌/◌, ◌%◌, ◌+◌,
  ltb, if◌then◌else◌,
}
use aisphere_kit.Base.Clock.{ℤ}

-- The commands a script runs inside the server.
pub record Server (W : Type 0) : Type 0 where
  pub get : Text → W → Option Text × W
  pub del : Text → W → ℕ × W
  pub pexpire : Text → ℕ → W → ℕ × W

-- A universal client. `get` and `get_del` answer `none` for redis.Nil.
pub record Redis (W : Type 0) : Type 0 where
  pub server : Server W
  pub set : Text → Text → ℤ → Io W (Unit {0})
  pub set_nx : Text → Text → ℤ → Io W Bool
  pub get : Text → Io W (Option Text)
  pub get_del : Text → Io W (Option Text)
  pub exists : Text → Io W ℕ
  pub eval : (W → ℕ × W) → Io W ℕ
  pub random : ℕ → Io W (List ℕ)

abbrev hex_digit : ℕ → ℕ
hex_digit n = if ltb n 10 then b'0' + n else 87 + n

-- hex.EncodeToString
unfoldable pub hex : List ℕ → Text
hex [] = []
hex (b ∷ bs) = hex_digit (b / 16) ∷ hex_digit (b % 16) ∷ hex bs

-- What the commands do to the values that the keys have, apart from expiry: `value w k` is the value
-- of `k` now. A command that succeeds has its effect at once, a script runs as one command, and none
-- touches another key.
pub record Store {W : Type 0} (r : Redis W) : Type 0 where
  pub value : W → Text → Option Text
  pub get_value : (k : Text) (w : W) → r.server.get k w ≡ (value w k, w)
  pub del_value : (k : Text) (w : W) → value (r.server.del k w).1 k ≡ none
  pub del_count : (k v : Text) (w : W) → value w k ≡ some v → (r.server.del k w).0 ≡ 1
  pub del_frame : (k j : Text) (w : W) → j ≢ k → value (r.server.del k w).1 j ≡ value w j
  pub pexpire_value :
      (k : Text) (n : ℕ) (w : W) (j : Text) → value (r.server.pexpire k n w).1 j ≡ value w j
  pub eval_runs :
      (script : W → ℕ × W) (w w' : W) (n : ℕ) → r.eval script w ≡ (ok n, w') → script w ≡ (n, w')
  pub random_value : (n : ℕ) (w : W) (j : Text) → value (r.random n w).1 j ≡ value w j
  pub set_frame :
      (k v : Text) (ttl : ℤ) (w : W) (j : Text) → j ≢ k → value (r.set k v ttl w).1 j ≡ value w j
  pub set_value :
      (k v : Text) (ttl : ℤ) (w w' : W) → r.set k v ttl w ≡ (ok tt, w') → value w' k ≡ some v
  pub set_nx_sets :
      (k v : Text) (ttl : ℤ) (w w' : W)
      → r.set_nx k v ttl w ≡ (ok true, w')
      → (value w k ≡ none) × (value w' k ≡ some v)
  pub set_nx_refuses :
      (k v : Text) (ttl : ℤ) (w w' : W)
      → r.set_nx k v ttl w ≡ (ok false, w')
      → (value w k ≢ none) × (value w' k ≡ value w k)
  pub get_says :
      (k : Text) (w w' : W) (o : Option Text)
      → r.get k w ≡ (ok o, w')
      → (o ≡ value w k) × (value w' k ≡ value w k)
  pub get_del_value :
      (k : Text) (w w' : W) (o : Option Text)
      → r.get_del k w ≡ (ok o, w')
      → (o ≡ value w k) × (value w' k ≡ none)
  pub exists_value :
      (k : Text) (w w' : W) (n : ℕ) → r.exists k w ≡ (ok n, w') → (n ≡ 0 → value w k ≡ none)
