-- ===== src/Db/Tx/Nesting.antt =====
-- db/tx.go: a transaction inside a transaction is the same transaction.
use aisphere_kit.Base.{Option, none, some, Error, ℕ, ◌≡◌, refl, ap}
use aisphere_kit.Context.{Context}
use aisphere_kit.Db.Tx.{
  Gorm, TxManager, new_tx_context, tx_from_context, in_tx, handle_of, on_handle, with_tx,
}

module _ {W : Type 0} (gorm : Gorm W) where
  in_tx-nested :
      (m : Option TxManager) (h : ℕ) (ctx : Context W) (fn : Context W → ℕ → W → Option Error × W)
      (o : Option ℕ) (w : W)
      → tx_from_context ctx ≡ o
      → handle_of gorm m ≡ some h
      → in_tx gorm ctx (λ c t. with_tx gorm m c fn) h o w ≡ in_tx gorm ctx fn h o w
  unfolding with_tx new_tx_context tx_from_context
  in_tx-nested m h ctx fn (some t) w e p = rw (p, e) refl
  in_tx-nested m h ctx fn none w e p =
      ap
        (λ o.
          gorm.transaction (gorm.with_context h ctx)
            (λ t. on_handle gorm (new_tx_context ctx (some t)) fn o) w)
        p

  nested :
      (m : Option TxManager) (ctx : Context W) (fn : Context W → ℕ → W → Option Error × W)
      (o : Option ℕ) (w : W)
      → handle_of gorm m ≡ o
      → on_handle gorm ctx (λ c t. with_tx gorm m c fn) o w ≡ on_handle gorm ctx fn o w
  nested m ctx fn none w e = refl
  nested m ctx fn (some h) w e = in_tx-nested m h ctx fn (tx_from_context ctx) w refl e

  -- A WithTx whose function only calls WithTx again is the one transaction: the inner call finds the
  -- transaction of the outer one in its context and begins no other, whatever manager, context and
  -- function it has.
  pub with_tx-nested :
      (m : Option TxManager) (ctx : Context W) (fn : Context W → ℕ → W → Option Error × W) (w : W)
      → with_tx gorm m ctx (λ c t. with_tx gorm m c fn) w ≡ with_tx gorm m ctx fn w
  unfolding with_tx
  with_tx-nested m ctx fn w = nested m ctx fn (handle_of gorm m) w refl
