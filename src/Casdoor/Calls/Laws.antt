-- ===== src/Casdoor/Calls/Laws.antt =====
-- casdoor/adapter.go: what a retried remote call guarantees.
use mathlib.Core.Path.{subst, sym}
use aisphere_kit.Base.{Option, none, some, Result, ok, err, Error, ◌≡◌, refl, ap, arith, ℕ}
use aisphere_kit.Context.{Context, Race, finished, done_before, done_after}
use aisphere_kit.Retry
use aisphere_kit.Retry.{returned, nil_context, retry}
use aisphere_kit.Retry.Loop.{retry_inv, retry-ok}
use aisphere_kit.Casdoor.Calls.{Adapter, settle_race, call_with_context, settle, remote}

-- The context does not touch what `P` speaks of: neither reading its state nor waiting changes it.
pub record IsQuiet {W : Type 0} (ctx : Option (Context W)) (P : W → Type 0) : Type 0 where
  pub by_poll : (c : Context W) → ctx ≡ some c → (w : W) → P w → P (c.poll w).1
  pub by_pause : (c : Context W) → ctx ≡ some c → (n : ℕ) (w : W) → P w → P (c.pause n w).1
  pub by_race : (c : Context W) → ctx ≡ some c → (w : W) → P w → P (c.race w).1

module _ {W A : Type 0} where
  settle_race-ok :
      (fn : W → Result A × W) (r : Race × W) (x : A) (w' : W)
      → settle_race fn r ≡ (ok x, w')
      → (v : W) × (fn v ≡ (ok x, w'))
  settle_race-ok fn (finished, v) x w' h = (v, h)
  settle_race-ok fn (done_before e, v) x w' h = absurd (ground arith)
  settle_race-ok fn (done_after e, v) x w' h = absurd (ground arith)

  call_with_context-ok :
      (ctx : Option (Context W)) (fn : W → Result A × W) (w w' : W) (x : A)
      → call_with_context ctx fn w ≡ (ok x, w')
      → (v : W) × (fn v ≡ (ok x, w'))
  unfolding call_with_context
  call_with_context-ok none fn w w' x h = (w, h)
  call_with_context-ok (some c) fn w w' x h = settle_race-ok fn (c.race w) x w' h

  settle-ok :
      (r : Retry.Outcome A × W) (x : A) (w' : W) → settle r ≡ (ok x, w') → r ≡ (returned (ok x), w')
  settle-ok (returned (ok y), v) x w' h = ground arith
  settle-ok (returned (err e), v) x w' h = absurd (ground arith)
  settle-ok (nil_context, v) x w' h = absurd (ground arith)

  settle-world : (r : Retry.Outcome A × W) → (settle r).1 ≡ r.1
  settle-world (returned y, v) = refl
  settle-world (nil_context, v) = refl

  module _ (a : Adapter W) (ctx : Option (Context W)) (fn : W → Result A × W) where
    -- A remote call that succeeds ends with a call of the SDK that succeeds.
    pub remote-ok :
        (w w' : W) (x : A) → remote a ctx fn w ≡ (ok x, w') → (v : W) × (fn v ≡ (ok x, w'))
    unfolding remote
    remote-ok w w' x h =
        let (v, c) =
          retry-ok ctx a.retry_policy (call_with_context ctx fn) w w' x (settle-ok _ x w' h) in
        call_with_context-ok ctx fn v w' x c

    module _ (P : W → Type 0) (quiet : IsQuiet ctx P) (by_call : (w : W) → P w → P (fn w).1) where
      race_inv : (r : Race × W) → P r.1 → P (settle_race fn r).1
      race_inv (finished, v) h = by_call v h
      race_inv (done_before e, v) h = h
      race_inv (done_after e, v) h = by_call v h

      call_inv : (c : Option (Context W)) → ctx ≡ c → (w : W) → P w → P (call_with_context c fn w).1
      unfolding call_with_context
      call_inv none e w h = by_call w h
      call_inv (some c) e w h = race_inv (c.race w) (quiet.by_race c e w h)

      poll_inv : (c : Option (Context W)) → ctx ≡ c → (w : W) → P w → P (Retry.poll c w).1
      poll_inv none e w h = h
      poll_inv (some c) e w h = quiet.by_poll c e w h

      pause_inv :
          (c : Option (Context W))
          → ctx ≡ c
          → (w : W) (e : Option Error) (v : W)
          → Retry.pause c a.retry_policy.backoff w ≡ some (e, v)
          → P w
          → P v
      pause_inv none e w x v p h = absurd (ground arith)
      pause_inv (some c) e w x v p h =
          let same : c.pause (Retry.nanoseconds a.retry_policy.backoff) w ≡ (x, v) = cc in
          subst P (ap (λ (y : Option Error × W). y.1) same) (quiet.by_pause c e _ w h)

      -- What the context and the call of the SDK keep, the remote call keeps, however it ends.
      pub remote_inv : (w : W) → P w → P (remote a ctx fn w).1
      unfolding remote
      remote_inv w h = subst P (sym (settle-world _)) (
          retry_inv ctx a.retry_policy (call_with_context ctx fn) P
            (record {
              by_poll = poll_inv ctx refl;
              by_pause = pause_inv ctx refl;
              by_call = call_inv ctx refl;
            })
            w h)
