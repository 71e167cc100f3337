-- ===== src/Casdoor/Calls.antt =====
-- casdoor/adapter.go: callWithContext, and the retried remote call that the operations share.
use aisphere_kit.Base.{
  Text, codes, Option, none, some, Result, ok, err, Error, plain, Io, Bool, ◌≡◌, refl, ap, arith,
}
use aisphere_kit.Base.Clock.{pos, negsuc}
use aisphere_kit.Context.{Context, Race, finished, done_before, done_after}
use aisphere_kit.Retry
use aisphere_kit.Retry.{Policy, returned, nil_context, retry, poll, pause}
use aisphere_kit.Retry.Loop.{IsKept, retry_inv, retry-ok}
use aisphere_kit.Casdoor.Client.{Client}
use aisphere_kit.Casdoor.Settings.{Config}
pub mod Laws

pub record Adapter (W : Type 0) : Type 0 where
  pub cfg : Config
  pub client : Client W
  pub retry_policy : Policy

module _ {W A : Type 0} where
  -- What each branch of the race returns. Where the context is done first, the goroutine goes on:
  -- `done_after` is that it takes effect before the function returns, `done_before` that it does not.
  abbrev pub settle_race : (W → Result A × W) → Race × W → Result A × W
  settle_race fn (finished, w) = fn w
  settle_race fn (done_before e, w) = (err e, w)
  settle_race fn (done_after e, w) = (err e, (fn w).1)

  unfoldable pub call_with_context : Option (Context W) → (W → Result A × W) → W → Result A × W
  call_with_context none fn w = fn w
  call_with_context (some ctx) fn w = settle_race fn (ctx.race w)

  -- The panic of a wait without a context, as the runtime error that it raises.
  abbrev pub settle : Retry.Outcome A × W → Result A × W
  settle (returned r, w) = (r, w)
  settle (nil_context, w) =
      (err (plain (codes "invalid memory address or nil pointer dereference")), w)

  -- retry.Do(ctx, a.retry, func() error { return callWithContext(ctx, fn) })
  unfoldable pub remote : Adapter W → Option (Context W) → (W → Result A × W) → W → Result A × W
  remote a ctx fn w = settle (retry ctx a.retry_policy (call_with_context ctx fn) w)
