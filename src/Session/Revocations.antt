-- ===== src/Session/Revocations.antt =====
-- session/session.go: a revoked token is seen to be revoked.
use aisphere_kit.Base.{
  and_then-ok, pure-injective, Text, codes, Bool, true, false, none, some, ok, ◌≡◌, ◌≢◌, sym, ◌∙◌,
  arith, is_empty, if◌then◌else◌, trim_space, ◌>>=◌, ℕ, ltb,
}
use aisphere_kit.Base.Clock.{ℤ}
use aisphere_kit.Cache.Redis.{Redis, Store}
use aisphere_kit.Session.{Config, Platform, revoke_token, is_revoked, blacklist_key}
use aisphere_kit.Session.States.{manager}

clash : {A : Type 0} {v : A} → none ≡ some v → ⊥
clash h = absurd (ground arith)

positive : (n : ℕ) → n ≢ 0 → ltb 0 n ≡ true
positive n h = ground arith

module _ {W : Type 0} (platform : Platform) (r : Redis W) (store : Store r) (cfg : Config) where
  open store use {value}

  -- The answer of IsRevoked for a token whose blacklist key has a value.
  is_revoked-true :
      (token v : Text) (b : Bool) (w w' : W)
      → is_empty (trim_space token) ≡ false
      → value w (blacklist_key platform cfg token) ≡ some v
      → is_revoked platform (manager r cfg) token w ≡ (ok b, w')
      → b ≡ true
  unfolding is_revoked
  is_revoked-true token v b w w' given present h =
      let asked : (r.exists (blacklist_key platform cfg token) >>= λ n u. (ok (ltb 0 n), u)) w
          ≡ (ok b, w') =
        rw (given, if◌then◌else◌) at h in
      let (n, u, counted, done) = and_then-ok _ _ b w' asked in
      let same : ltb 0 n ≡ b = pure-injective (ltb 0 n) b u w' done in
      let nonzero : n ≢ 0 = λ z. clash (sym (store.exists_value _ w u n counted z) ∙ present) in
      sym same ∙ positive n nonzero

  -- After RevokeToken of a token that is not blank has succeeded, IsRevoked of it answers `true`
  -- whenever it answers without an error.
  pub is_revoked-revoke_token :
      (token : Text) (ttl : ℤ) (b : Bool) (w w₁ w₂ : W)
      → is_empty (trim_space token) ≡ false
      → revoke_token platform (manager r cfg) token ttl w ≡ (ok tt, w₁)
      → is_revoked platform (manager r cfg) token w₁ ≡ (ok b, w₂)
      → b ≡ true
  unfolding revoke_token
  is_revoked-revoke_token token ttl b w w₁ w₂ given revoked asked =
      let set = rw (given, if◌then◌else◌) at revoked in
      is_revoked-true token (codes "1") b w₁ w₂ given (store.set_value _ (codes "1") _ w w₁ set)
        asked
