-- ===== src/Cache/Lock/Waiting.antt =====
-- cache/lock.go, LockWithWait: a lock that is tried again and again until a deadline.
use aisphere_kit.Base.{
  Text, codes, true, Option, none, some, Result, ok, err, Error, plain, ◌++◌, if◌then◌else◌,
  if_cases, ◌≡◌, refl, sym, ap, arith, ℕ, zero, suc, ◌+◌, ◌-◌, ◌*◌, ◌<◌, ◌≤◌, ltb,
}
use mathlib.Core.Path.{subst}
use aisphere_kit.Base.Clock.{ℤ, pos, negsuc, Time, Clock, not_positive, millisecond}
use aisphere_kit.Context.{Context}
use aisphere_kit.Cache.Redis.{Redis}
use aisphere_kit.Cache.Lock.{Lock, try_lock}

abbrev pub after_wait : Time → ℤ → Time
after_wait t (pos n) = t + n
after_wait t (negsuc n) = t - suc n

-- The interval between two attempts, in nanoseconds.
abbrev pub interval_of : ℤ → ℕ
interval_of (pos zero) = 100 * millisecond
interval_of (pos (suc n)) = suc n
interval_of (negsuc n) = 100 * millisecond

-- What the loop answers; `none` is that the fuel is used up.
abbrev pub Outcome : Type 0 → Type 0
Outcome W = Option (Result (Lock W)) × W

module _ {W : Type 0} (clock : Clock W) (ctx : Context W) (client : Option (Redis W)) (key : Text)
    (ttl wait interval : ℤ) where
  abbrev not_acquired : Error
  not_acquired = plain (codes "lock " ++ (key ++ codes " not acquired"))

  abbrev paused : (W → Outcome W) → Option Error × W → Outcome W
  paused next (none, w) = next w
  paused next (some e, w) = (some (err e), w)

  abbrev at_time : Time → (W → Outcome W) → Time × W → Outcome W
  at_time deadline next (t, w) =
      if ltb deadline t
      then (some (err not_acquired), w)
      else paused next (ctx.pause (interval_of interval) w)

  abbrev tried : Time → (W → Outcome W) → Result (Option (Lock W)) × W → Outcome W
  tried deadline next (err e, w) = (some (err e), w)
  tried deadline next (ok (some l), w) = (some (ok l), w)
  tried deadline next (ok none, w) =
      if not_positive wait
      then (some (err not_acquired), w)
      else at_time deadline next (clock.now w)

  -- The loop, on fuel.
  unfoldable pub wait_loop : ℕ → Time → W → Outcome W
  unfolding try_lock
  wait_loop zero deadline w = (none, w)
  wait_loop (suc n) deadline w =
      tried deadline (λ v. wait_loop n deadline v) (try_lock client key ttl w)

  abbrev started : ℕ → Time × W → Outcome W
  started fuel (t, w) = wait_loop fuel (after_wait t wait) w

  unfoldable pub lock_with_wait : ℕ → W → Outcome W
  unfolding wait_loop
  lock_with_wait fuel w = started fuel (clock.now w)

  -- One attempt for each nanosecond of the wait, and two more.
  abbrev pub enough_fuel : ℤ → ℕ
  enough_fuel (pos n) = suc (suc n)
  enough_fuel (negsuc n) = 1

  -- The clock does not go back, and a pause that the timer ends takes its time.
  pub record Ticks : Type 0 where
    pub time : W → Time
    pub now_says : (w : W) → (clock.now w).0 ≡ time w
    pub now_on : (w : W) → time w ≤ time (clock.now w).1
    pub pause_on : (n : ℕ) (w w' : W) → ctx.pause n w ≡ (none, w') → time w + n ≤ time w'
    pub try_on : (w : W) → time w ≤ time (try_lock client key ttl w).1

  -- The loop has an answer.
  abbrev pub Answers : Outcome W → Type 0
  Answers (none, w) = ⊥
  Answers (some r, w) = Unit

  interval-positive : (i : ℤ) → 0 < interval_of i
  interval-positive (pos zero) = omega arith
  interval-positive (pos (suc n)) = omega arith
  interval-positive (negsuc n) = omega arith

  module _ (ticks : Ticks) where
    open ticks use {time}

    paused-Answers :
        (next : W → Outcome W) (r : Option Error × W) (t : Time)
        → ((w' : W) → r ≡ (none, w') → t < time w')
        → ((w' : W) → t < time w' → Answers (next w'))
        → Answers (paused next r)
    paused-Answers next (none, w) t h k = k w (h w refl)
    paused-Answers next (some e, w) t h k = tt

    at_time-Answers :
        (deadline : Time) (next : W → Outcome W) (r : Time × W)
        → r.0 ≤ time r.1
        → ((w' : W) → r.0 ≤ deadline → r.0 < time w' → Answers (next w'))
        → Answers (at_time deadline next r)
    at_time-Answers deadline next (t, w) h k =
        if_cases Answers (ltb deadline t) (some (err not_acquired), w) _ (λ e. tt)
          (λ e.
            paused-Answers next _ t
              (λ w' (p : ctx.pause (interval_of interval) w ≡ (none, w')). omega (
                arith,
                h,
                ticks.pause_on (interval_of interval) w w' p,
                interval-positive interval,
              ))
              (λ w' p. k w' (ground (arith, e)) p))

    tried-Answers :
        (deadline : Time) (next : W → Outcome W) (r : Result (Option (Lock W)) × W)
        → ((w' : W) → time r.1 ≤ deadline → time r.1 < time w' → Answers (next w'))
        → Answers (tried deadline next r)
    tried-Answers deadline next (err e, w) k = tt
    tried-Answers deadline next (ok (some l), w) k = tt
    tried-Answers deadline next (ok none, w) k =
        if_cases Answers (not_positive wait) (some (err not_acquired), w) _ (λ e. tt)
          (λ e.
            at_time-Answers deadline next (clock.now w)
              (omega (arith, ticks.now_says w, ticks.now_on w))
              (λ w' p q.
                k w' (omega (arith, p, ticks.now_says w)) (omega (arith, q, ticks.now_says w))))

    wait_loop-Answers :
        (n : ℕ) (deadline : Time) (w : W)
        → deadline + 1 < time w + suc n
        → Answers (wait_loop (suc n) deadline w)
    unfolding wait_loop
    wait_loop-Answers zero deadline w h =
        tried-Answers deadline (λ v. wait_loop 0 deadline v) (try_lock client key ttl w)
          (λ v p q. absurd (omega (arith, h, p, ticks.try_on w)))
    wait_loop-Answers (suc m) deadline w h =
        tried-Answers deadline (λ v. wait_loop (suc m) deadline v) (try_lock client key ttl w)
          (λ v p q. wait_loop-Answers m deadline v (omega (arith, h, q, ticks.try_on w)))

    -- Without a wait there is one attempt.
    tried_once :
        (deadline : Time) (next : W → Outcome W) (r : Result (Option (Lock W)) × W)
        → not_positive wait ≡ true
        → Answers (tried deadline next r)
    tried_once deadline next (err e, w) h = tt
    tried_once deadline next (ok (some l), w) h = tt
    tried_once deadline next (ok none, w) h = rw h tt

    started-Answers :
        (d : ℤ) (r : Time × W) → wait ≡ d → r.0 ≤ time r.1 → Answers (started (enough_fuel d) r)
    unfolding wait_loop
    started-Answers (pos n) (t, w) e h =
        subst (λ d. Answers (wait_loop (suc (suc n)) (after_wait t d) w)) (sym e)
          (wait_loop-Answers (suc n) (t + n) w (omega (arith, h)))
    started-Answers (negsuc n) (t, w) e h =
        tried_once (after_wait t wait) (λ v. wait_loop 0 (after_wait t wait) v)
          (try_lock client key ttl w) (ap not_positive e)

    -- LockWithWait ends: one attempt for each nanosecond of the wait and two more are enough, whatever
    -- the interval, the key, the client and the answers of Redis are. The clock is taken not to go back
    -- and a pause to take its time.
    pub lock_with_wait-Answers : (w : W) → Answers (lock_with_wait (enough_fuel wait) w)
    unfolding lock_with_wait
    lock_with_wait-Answers w =
        started-Answers wait (clock.now w) refl (omega (arith, ticks.now_says w, ticks.now_on w))
