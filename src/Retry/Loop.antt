-- ===== src/Retry/Loop.antt =====
-- retry/retry.go: what the outcome of the loop says about the calls that it made.
use mathlib.Core.Path.{subst}
use aisphere_kit.Base.{
  ap, true, false, Option, none, some, Result, ok, err, Error, ℕ, zero, suc, ◌-◌, ◌≤◌, ◌<◌, ◌≡◌,
  refl, arith, Bool-cases, inl, inr,
}
use aisphere_kit.Base.Clock.{ℤ, pos, not_positive}
use aisphere_kit.Context.{Context}
use aisphere_kit.Retry.{
  Policy, Outcome, returned, nil_context, loop, retry, poll, pause, after_call, after_pause,
  after_last, when_live, rounds_of,
}

no_context :
    {W : Type 0} (backoff : ℤ) (ctx : Option (Context W)) (w : W)
    → pause ctx backoff w ≡ none
    → ctx ≡ none
no_context backoff none w h = refl
no_context backoff (some c) w h = absurd (ground arith)

module _ {W A : Type 0} (ctx : Option (Context W)) (backoff : ℤ) (fn : W → Result A × W) where
  -- The wait between two rounds: none without a positive backoff.
  pub data Waits : W → W → Type 0 where
    at_once : (w : W) → not_positive backoff ≡ true → Waits w w
    waited :
        {w v : W} → not_positive backoff ≡ false → pause ctx backoff w ≡ some (none, v) → Waits w v

  -- `Tried k w u`: from the world `w`, `k` rounds failed and were waited for, up to the world `u`.
  pub data Tried : ℕ → W → W → Type 0 where
    start : (w : W) → Tried 0 w w
    again :
        {k : ℕ} {w v x y u : W} {e : Error}
        → poll ctx w ≡ (none, v)
        → fn v ≡ (err e, x)
        → Waits x y
        → Tried k y u
        → Tried (suc k) w u

  -- How a loop of at most `n` more rounds can end.
  pub data Ends (n : ℕ) (w : W) : Outcome A → W → Type 0 where
    -- the call of a round succeeded
    succeeded :
        {k : ℕ} {u v w' : W} {a : A}
        → k ≤ n
        → Tried k w u
        → poll ctx u ≡ (none, v)
        → fn v ≡ (ok a, w')
        → Ends n w (returned (ok a)) w'
    -- every round failed, and this is the error of the last one
    exhausted :
        {u v w' : W} {e : Error}
        → Tried n w u
        → poll ctx u ≡ (none, v)
        → fn v ≡ (err e, w')
        → Ends n w (returned (err e)) w'
    -- the context was done before a round
    stopped :
        {k : ℕ} {u w' : W} {e : Error}
        → k ≤ n
        → Tried k w u
        → poll ctx u ≡ (some e, w')
        → Ends n w (returned (err e)) w'
    -- the context was done during the wait that follows a failed round
    interrupted :
        {k : ℕ} {u v x w' : W} {d e : Error}
        → k < n
        → Tried k w u
        → poll ctx u ≡ (none, v)
        → fn v ≡ (err d, x)
        → not_positive backoff ≡ false
        → pause ctx backoff x ≡ some (some e, w')
        → Ends n w (returned (err e)) w'
    -- the wait that follows a failed round needs a context, and there is none
    panicked :
        {k : ℕ} {u v w' : W} {d : Error}
        → k < n
        → Tried k w u
        → poll ctx u ≡ (none, v)
        → fn v ≡ (err d, w')
        → not_positive backoff ≡ false
        → ctx ≡ none
        → Ends n w nil_context w'

  Ends-suc :
      {n : ℕ} {w v x y w' : W} {d : Error} {o : Outcome A}
      → poll ctx w ≡ (none, v)
      → fn v ≡ (err d, x)
      → Waits x y
      → Ends n y o w'
      → Ends (suc n) w o w'
  Ends-suc p f t (succeeded h path q c) = succeeded (omega arith) (again p f t path) q c
  Ends-suc p f t (exhausted path q c) = exhausted (again p f t path) q c
  Ends-suc p f t (stopped h path q) = stopped (omega arith) (again p f t path) q
  Ends-suc p f t (interrupted h path q c b z) = interrupted (omega arith) (again p f t path) q c b z
  Ends-suc p f t (panicked h path q c b z) = panicked (omega arith) (again p f t path) q c b z

  Ends-last :
      (w v : W) (r : Result A × W)
      → poll ctx w ≡ (none, v)
      → fn v ≡ r
      → Ends 0 w (after_last r).0 (after_last r).1
  Ends-last w v (ok a, x) p c = succeeded (omega arith) (start w) p c
  Ends-last w v (err e, x) p c = exhausted (start w) p c

  Ends-pause :
      (n : ℕ) (w v x : W) (e : Error) (r : Option (Option Error × W))
      → ((y : W) → Ends n y (loop ctx backoff fn n y).0 (loop ctx backoff fn n y).1)
      → poll ctx w ≡ (none, v)
      → fn v ≡ (err e, x)
      → not_positive backoff ≡ false
      → pause ctx backoff x ≡ r
      → Ends
          (suc n)
          w
          (after_pause (loop ctx backoff fn n) x r).0
          (after_pause (loop ctx backoff fn n) x r).1
  Ends-pause n w v x e none ih p c b z =
      panicked (omega arith) (start w) p c b (no_context backoff ctx x z)
  Ends-pause n w v x e (some (none, y)) ih p c b z = Ends-suc p c (waited b z) (ih y)
  Ends-pause n w v x e (some (some d, y)) ih p c b z = interrupted (omega arith) (start w) p c b z

  Ends-call :
      (n : ℕ) (w v : W) (r : Result A × W)
      → ((y : W) → Ends n y (loop ctx backoff fn n y).0 (loop ctx backoff fn n y).1)
      → poll ctx w ≡ (none, v)
      → fn v ≡ r
      → Ends
          (suc n)
          w
          (after_call ctx backoff (loop ctx backoff fn n) r).0
          (after_call ctx backoff (loop ctx backoff fn n) r).1
  Ends-call n w v (ok a, x) ih p c = succeeded (omega arith) (start w) p c
  Ends-call n w v (err e, x) ih p c = elim (Bool-cases (not_positive backoff)) [
    | inl b ↦ rw b (Ends-suc p c (at_once x b) (ih x))
    | inr b ↦ rw b (Ends-pause n w v x e _ ih p c b refl)
  ]

  Ends-live :
      (n : ℕ) (w : W) (go : W → Outcome A × W) (r : Option Error × W)
      → ((v : W) → poll ctx w ≡ (none, v) → Ends n w (go v).0 (go v).1)
      → poll ctx w ≡ r
      → Ends n w (when_live go r).0 (when_live go r).1
  Ends-live n w go (none, v) step p = step v p
  Ends-live n w go (some e, v) step p = stopped (omega arith) (start w) p

  Ends-loop : (n : ℕ) (w : W) → Ends n w (loop ctx backoff fn n w).0 (loop ctx backoff fn n w).1
  unfolding loop
  Ends-loop zero w = Ends-live 0 w _ _ (λ v p. Ends-last w v (fn v) p refl) refl
  Ends-loop (suc n) w =
      Ends-live (suc n) w _ _ (λ v p. Ends-call n w v (fn v) (Ends-loop n) p refl) refl

  -- What the world keeps through the polls, the waits and the calls of a loop.
  pub record IsKept (P : W → Type 0) : Type 0 where
    pub by_poll : (w : W) → P w → P (poll ctx w).1
    pub by_pause :
        (w : W) (e : Option Error) (v : W) → pause ctx backoff w ≡ some (e, v) → P w → P v
    pub by_call : (w : W) → P w → P (fn w).1

  module _ (P : W → Type 0) (kept : IsKept P) where
    Waits_inv : {w v : W} → Waits w v → P w → P v
    Waits_inv (at_once w b) h = h
    Waits_inv (waited b z) h = kept.by_pause _ _ _ z h

    poll_inv : {w v : W} {e : Option Error} → poll ctx w ≡ (e, v) → P w → P v
    poll_inv {w} p h = subst P (ap (λ (x : Option Error × W). x.1) p) (kept.by_poll w h)

    call_inv : {w v : W} {r : Result A} → fn w ≡ (r, v) → P w → P v
    call_inv {w} p h = subst P (ap (λ (x : Result A × W). x.1) p) (kept.by_call w h)

    Tried_inv : {k : ℕ} {w u : W} → Tried k w u → P w → P u
    Tried_inv (start w) h = h
    Tried_inv (again p c z path) h = Tried_inv path (Waits_inv z (call_inv c (poll_inv p h)))

    pub Ends_inv : {n : ℕ} {w w' : W} {o : Outcome A} → Ends n w o w' → P w → P w'
    Ends_inv (succeeded h path p c) x = call_inv c (poll_inv p (Tried_inv path x))
    Ends_inv (exhausted path p c) x = call_inv c (poll_inv p (Tried_inv path x))
    Ends_inv (stopped h path p) x = poll_inv p (Tried_inv path x)
    Ends_inv (interrupted h path p c b z) x =
        kept.by_pause _ _ _ z (call_inv c (poll_inv p (Tried_inv path x)))
    Ends_inv (panicked h path p c b z) x = call_inv c (poll_inv p (Tried_inv path x))

module _ {W A : Type 0} (ctx : Option (Context W)) (policy : Policy) (fn : W → Result A × W) where
  -- Do ends in one of five ways, and makes at most as many calls as the policy has attempts (one, if
  -- it has none): a call succeeded, directly before the end; as many calls failed as there are
  -- attempts, and the error is that of the last; the context was done before a round, or in the
  -- wait after a failed one, and the error is the context's; or a wait found no context.
  pub Ends-retry :
      (w : W)
      → Ends ctx policy.backoff fn
          (rounds_of policy.attempts)
          w
          (retry ctx policy fn w).0
          (retry ctx policy fn w).1
  unfolding retry
  Ends-retry w = Ends-loop ctx policy.backoff fn (rounds_of policy.attempts) w

  -- Success means a successful call at the end.
  pub retry-ok :
      (w w' : W) (a : A)
      → retry ctx policy fn w ≡ (returned (ok a), w')
      → (v : W) × (fn v ≡ (ok a, w'))
  retry-ok w w' a h =
      last _ _ _ (Ends-retry w) (ap (λ (x : Outcome A × W). x.0) h)
        (ap (λ (x : Outcome A × W). x.1) h)
    where
      last :
          (n : ℕ) (o : Outcome A) (u : W)
          → Ends ctx policy.backoff fn n w o u
          → o ≡ returned (ok a)
          → u ≡ w'
          → (v : W) × (fn v ≡ (ok a, w'))
      last n o u (succeeded {v} i path p c) e f = (v, ground arith)
      last n o u (exhausted path p c) e f = absurd (ground arith)
      last n o u (stopped i path p) e f = absurd (ground arith)
      last n o u (interrupted i path p c b z) e f = absurd (ground arith)
      last n o u (panicked i path p c b z) e f = absurd (ground arith)

  pub retry_inv :
      (P : W → Type 0)
      → IsKept ctx policy.backoff fn P
      → (w : W) → P w
      → P (retry ctx policy fn w).1
  retry_inv P kept w h = Ends_inv ctx policy.backoff fn P kept (Ends-retry w) h

-- Without a context, a first call that fails makes Do panic whenever the policy has more than one
-- attempt and a positive backoff: the wait reads the Done channel of the nil context.
pub retry-nil_context :
    {W A : Type 0} (n d : ℕ) (fn : W → Result A × W) (w w' : W) (e : Error)
    → fn w ≡ (err e, w')
    → retry none (record { attempts = pos (suc (suc n)); backoff = pos (suc d) }) fn w
      ≡ (nil_context, w')
unfolding retry
retry-nil_context n d fn w w' e h =
    let one_less : suc (suc n) - 1 ≡ suc n = omega arith in rw one_less (rw h (ground arith))
