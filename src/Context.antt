-- ===== src/Context.antt =====
-- context.Context as the packages use it: the values under the packages' private keys, and
-- cancellation. Cancellation depends on the world, which other goroutines and the clock change
-- too, so a context answers by functions on it:
--   * `poll` is the `select` on `ctx.Done()` with a default branch, answered by `ctx.Err()`;
--   * `pause` is the `select` between a timer of so many nanoseconds and `ctx.Done()`;
--   * `race` is the `select` between a running goroutine and `ctx.Done()`.
-- A nil context is `none : Option (Context W)`.
use aisphere_kit.Base.{ℕ, Option, some, Error, eqb, if◌then◌else◌, Text}
use aisphere_kit.Principal.Defs.{Principal}

-- The unexported key types: principal.contextKey, db.txContextKey, logx.RequestIDKey.
pub data Key : Type 0 where
  principal_key tx_key request_id_key : Key

abbrev index : Key → ℕ
index principal_key = 0
index tx_key = 1
index request_id_key = 2

-- The dynamic type of a value is its constructor. A nil pointer of a pointer type is `none`; a
-- *gorm.DB is the number of its handle.
pub data Value : Type 0 where
  principal : Option Principal → Value
  tx : Option ℕ → Value
  request_id : Text → Value

-- Which branch of the race between a goroutine and `ctx.Done()` was taken: the goroutine ended, or
-- the context was done first, before or after the goroutine took effect.
pub data Race : Type 0 where
  finished : Race
  done_before : Error → Race
  done_after : Error → Race

pub record Context (W : Type 0) : Type 0 where
  pub value : Key → Option Value
  pub poll : W → Option Error × W
  pub pause : ℕ → W → Option Error × W
  pub race : W → Race × W

-- context.WithValue
abbrev pub with_value : {W : Type 0} → Context W → Key → Value → Context W
with_value ctx k v = record ctx {
  value = λ j. if eqb (index k) (index j) then some v else ctx.value j;
}
