-- ===== src/Cache/Lock/Ownership.antt =====
-- cache/lock.go: who holds a lock.
use mathlib.Core.Path.{subst}
use aisphere_kit.Base.{
  and_then-ok, Text, Bool, true, false, Option, none, some, Result, ok, err, ◌≡◌, ◌≢◌, refl, sym,
  ◌∙◌, ap, arith, ℕ, is_empty, if◌then◌else◌, ◌==◌, eq_sound, Bool-cases, inl, inr, eqb, List,
  and_then, pure, fail, Error,
}
use aisphere_kit.Base.Clock.{ℤ, not_positive}
use aisphere_kit.Cache.Redis.{Redis, Store, hex}
use aisphere_kit.Cache.Lock.{
  Lock, random_token, try_lock, try_known, unlock, guarded, is_token, unless_lost, acquired,
}

module _ {W : Type 0} (r : Redis W) (store : Store r) where
  open store use {value}

  abbrev pub lock_on : Text → Text → Lock W
  lock_on key token = record { client = r; key = key; token = token }

  -- The lock is of this key, which had no value, and now holds the token of the lock.
  pub record Acquired (key : Text) (l : Lock W) (w w' : W) : Type 0 where
    pub token : Text
    pub made : l ≡ lock_on key token
    pub free : value w key ≡ none
    pub held : value w' key ≡ some token

  acquired-Acquired :
      (key token : Text) (b : Bool) (l : Lock W) (ttl : ℤ) (w v w' : W)
      → r.set_nx key token ttl w ≡ (ok b, v)
      → acquired r key token b v ≡ (ok (some l), w')
      → Acquired key l w w'
  acquired-Acquired key token false l ttl w v w' set h = absurd (ground arith)
  acquired-Acquired key token true l ttl w v w' set h =
      let (free, held) = store.set_nx_sets key token ttl w v set in
      let same : lock_on key token ≡ l = cc in
      let at_end : v ≡ w' = ap (λ (x : Result (Option (Lock W)) × W). x.1) h in
      record {
        token = token;
        made = sym same;
        free = free;
        held = subst (λ x. value x key ≡ some token) at_end held;
      }

  drawn-world : (o : Result (List ℕ) × W) → (and_then (λ bytes v. (ok (hex bytes), v)) o).1 ≡ o.1
  drawn-world (ok bytes, v) = refl
  drawn-world (err e, v) = refl

  random_token_frame : (w : W) (j : Text) → value (random_token r w).1 j ≡ value w j
  unfolding random_token
  random_token_frame w j = rw drawn-world (store.random_value 16 w j)

  random_token-value :
      (w v : W) (token : Text)
      → random_token r w ≡ (ok token, v)
      → (j : Text) → value v j ≡ value w j
  random_token-value w v token h j =
      subst (λ x. value x j ≡ value w j) (ap (λ (x : Result Text × W). x.1) h)
        (random_token_frame w j)

  try_known-Acquired :
      (key : Text) (ttl : ℤ) (l : Lock W) (w w' : W)
      → try_known r key ttl w ≡ (ok (some l), w')
      → Acquired key l w w'
  try_known-Acquired key ttl l w w' h =
      let (token, v, drawn, h₁) = and_then-ok _ _ (some l) w' h in
      let (b, u, set, h₂) = and_then-ok _ _ (some l) w' h₁ in
      let c = acquired-Acquired key token b l ttl v u w' set h₂ in
      record {
        token = c.token;
        made = c.made;
        free = sym (random_token-value w v token drawn key) ∙ c.free;
        held = c.held;
      }

  try_lock-Acquired :
      (key : Text) (ttl : ℤ) (l : Lock W) (w w' : W) (e n : Bool)
      → is_empty key ≡ e
      → not_positive ttl ≡ n
      → try_lock (some r) key ttl w ≡ (ok (some l), w')
      → Acquired key l w w'
  unfolding try_lock
  try_lock-Acquired key ttl l w w' true n p q h = absurd (ground arith)
  try_lock-Acquired key ttl l w w' false true p q h = absurd (ground arith)
  try_lock-Acquired key ttl l w w' false false p q h =
      try_known-Acquired key ttl l w w' (rw (p, q, if◌then◌else◌) at h)

  -- TryLock that acquires a lock found its key without a value and leaves it with the token of the
  -- lock; a TryLock on the same key that follows acquires nothing.
  pub try_lock-excludes :
      (key : Text) (ttl : ℤ) (l : Lock W) (w w' : W)
      → try_lock (some r) key ttl w ≡ (ok (some l), w')
      → Acquired key l w w'
        × ((ttl' : ℤ) (m : Lock W) (v : W) → try_lock (some r) key ttl' w' ≢ (ok (some m), v))
  try_lock-excludes key ttl l w w' h =
      let c = try_lock-Acquired key ttl l w w' _ _ refl refl h in
      (
        c,
        λ ttl' m v again.
            let d = try_lock-Acquired key ttl' m w' v _ _ refl refl again in
            let clash : some c.token ≡ none = sym c.held ∙ d.free in absurd (ground arith),
      )

  guarded_if :
      (key token : Text) (command : W → ℕ × W) (w : W) (o : Option Text)
      → value w key ≡ o
      → guarded r.server key token command w ≡ (if is_token token o then command w else (0, w))
  unfolding guarded
  guarded_if key token command w o h = rw (store.get_value key w, h) refl

  -- A script that answers something else than 0 ran on the token of its lock.
  guarded-owned :
      (key token : Text) (command : W → ℕ × W) (w w' : W) (n : ℕ) (o : Option Text)
      → value w key ≡ o
      → guarded r.server key token command w ≡ (n, w')
      → n ≢ 0
      → (o ≡ some token) × (command w ≡ (n, w'))
  guarded-owned key token command w w' n none h run nonzero =
      absurd (
        nonzero (ap (λ (x : ℕ × W). x.0) (sym (sym (guarded_if key token command w none h) ∙ run))))
  guarded-owned key token command w w' n (some v) h run nonzero = elim (Bool-cases (v == token)) [
    | inl e ↦
        let ran : (if v == token then command w else (0, w)) ≡ (n, w') =
          sym (guarded_if key token command w (some v) h) ∙ run in
        (ap some (eq_sound v token e), rw e at ran)
    | inr e ↦
        let ran : (if v == token then command w else (0, w)) ≡ (n, w') =
          sym (guarded_if key token command w (some v) h) ∙ run in
        absurd (nonzero (ap (λ (x : ℕ × W). x.0) (sym (rw e at ran))))
  ]

  unless-ok :
      (e : Error) (n : ℕ) (b : Bool) (v w' : W)
      → eqb n 0 ≡ b
      → (if b then fail e else pure tt) v ≡ (ok tt, w')
      → (n ≢ 0) × (v ≡ w')
  unless-ok e n true v w' z h = absurd (ground arith)
  unless-ok e n false v w' z h = (ground arith, ap (λ (x : Result (Unit {0}) × W). x.1) h)

  unless_lost-ok :
      (key : Text) (n : ℕ) (v w' : W) → unless_lost key n v ≡ (ok tt, w') → (n ≢ 0) × (v ≡ w')
  unless_lost-ok key n v w' h = unless-ok _ n _ v w' refl h

  -- Unlock, when it succeeds, was called by the owner: the key held the token of the lock. It leaves
  -- the key without a value, and every other key as it was.
  pub unlock-owned :
      (key token : Text) (w w' : W)
      → unlock (some (lock_on key token)) w ≡ (ok tt, w')
      → (value w key ≡ some token)
        × (value w' key ≡ none)
        × ((j : Text) → j ≢ key → value w' j ≡ value w j)
  unfolding unlock
  unlock-owned key token w w' h =
      let (n, v, ran, done) = and_then-ok _ _ tt w' h in
      let (nonzero, same) = unless_lost-ok key n v w' done in
      let (held, deleted) =
        guarded-owned key token (r.server.del key) w v n _ refl (store.eval_runs _ w v n ran)
          nonzero in
      let at_end : (r.server.del key w).1 ≡ w' = ap (λ (x : ℕ × W). x.1) deleted ∙ same in
      (
        held,
        subst (λ x. value x key ≡ none) at_end (store.del_value key w),
        λ j other. subst (λ x. value x j ≡ value w j) at_end (store.del_frame key j w other),
      )
