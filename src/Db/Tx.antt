-- ===== src/Db/Tx.antt =====
-- db/tx.go: transactions that are found in the context. GORM is a parameter of the model; a *gorm.DB is
-- the number of its handle, and a nil pointer is `none`.
use aisphere_kit.Base.{Text, codes, List, Any, Option, none, some, Error, plain, ℕ, ◌≡◌, refl, ap}
use aisphere_kit.Context.{Context, with_value, tx_key, Value, principal, tx, request_id}
pub mod Nesting

-- `transaction` begins a transaction, runs the function on its handle, and commits it or, where that
-- fails, rolls it back.
pub record Gorm (W : Type 0) : Type 0 where
  pub with_context : ℕ → Context W → ℕ
  pub transaction : ℕ → (ℕ → W → Option Error × W) → W → Option Error × W
  pub exec : ℕ → Text → List Any → W → Option Error × W

-- TxManager, without its logger.
pub record TxManager : Type 0 where
  pub db : Option ℕ

unfoldable pub new_tx_manager : Option ℕ → TxManager
new_tx_manager db = record { db = db }

abbrev as_tx : Option Value → Option ℕ
as_tx none = none
as_tx (some (principal p)) = none
as_tx (some (tx t)) = t
as_tx (some (request_id s)) = none

module _ {W : Type 0} where
  unfoldable pub new_tx_context : Context W → Option ℕ → Context W
  new_tx_context ctx t = with_value ctx tx_key (tx t)

  unfoldable pub tx_from_context : Context W → Option ℕ
  tx_from_context ctx = as_tx (ctx.value tx_key)

module _ {W : Type 0} (gorm : Gorm W) where
  -- Where nothing else is there, WithContext is called on a handle that may be nil: `on_nil` is what
  -- GORM does then.
  abbrev base_handle : ℕ → Context W → Option TxManager → Option ℕ
  base_handle on_nil ctx none = none
  base_handle on_nil ctx (some m) = elim m.db [
    | none ↦ some on_nil
    | some h ↦ some (gorm.with_context h ctx)
  ]

  abbrev found_or : Option ℕ → Option ℕ → Option ℕ
  found_or (some t) other = some t
  found_or none other = other

  unfoldable pub db : ℕ → Option TxManager → Context W → Option ℕ
  unfolding tx_from_context
  db on_nil m ctx = found_or (tx_from_context ctx) (base_handle on_nil ctx m)

  abbrev Body : Type 0
  Body = Context W → ℕ → W → Option Error × W

  abbrev in_tx :
      Context W → (Context W → ℕ → W → Option Error × W) → ℕ → Option ℕ → W → Option Error × W
  in_tx ctx fn h (some existing) = fn ctx existing
  in_tx ctx fn h none =
      gorm.transaction (gorm.with_context h ctx) (λ t. fn (new_tx_context ctx (some t)) t)

  abbrev on_handle :
      Context W → (Context W → ℕ → W → Option Error × W) → Option ℕ → W → Option Error × W
  on_handle ctx fn none w = (some (plain (codes "tx manager db is nil")), w)
  on_handle ctx fn (some h) w = in_tx ctx fn h (tx_from_context ctx) w

  abbrev handle_of : Option TxManager → Option ℕ
  handle_of none = none
  handle_of (some m) = m.db

  unfoldable pub with_tx :
      Option TxManager → Context W → (Context W → ℕ → W → Option Error × W) → W → Option Error × W
  unfolding new_tx_context tx_from_context
  with_tx m ctx fn w = on_handle ctx fn (handle_of m) w

  unfoldable pub exec : Context W → Option ℕ → Text → List Any → W → Option Error × W
  exec ctx none sql args w = (some (plain (codes "gorm db is nil")), w)
  exec ctx (some h) sql args w = gorm.exec (gorm.with_context h ctx) sql args w
