-- ===== src/Session/States.antt =====
-- session/session.go: an OAuth state can be used once.
use mathlib.Core.Path.{subst}
use aisphere_kit.Base.{
  and_then-ok, pure, pure-injective, Text, Bool, true, false, Option, none, some, Result, ok, ◌≡◌,
  ◌≢◌, refl, sym, ◌∙◌, ap, arith, is_empty, if◌then◌else◌, trim_space, is_space, List, [], ◌∷◌, ℕ,
  ◌<◌, ◌+◌, ◌/◌, ltb, ◌>>=◌,
}
use aisphere_kit.Base.Strings.Trim.{is_empty-trim}
use aisphere_kit.Cache.Redis.{Redis, Store, hex}
use aisphere_kit.Session.{
  Config, Manager, Platform, verify_state, new_state, take_state, found, state_key, store_state,
  state_life,
}

abbrev pub manager : {W : Type 0} → Redis W → Config → Option (Manager W)
manager r cfg = some (record { rdb = some r; cfg = cfg })

module _ {W : Type 0} where
  found-ok :
      (o : Option Text) (v : Text) (w w' : W) → found o w ≡ (ok v, w') → (o ≡ some v) × (w ≡ w')
  found-ok none v w w' h = absurd (ground arith)
  found-ok (some s) v w w' h = (cc, ap (λ (x : Result Text × W). x.1) h)

-- At least one byte, the first of which is below 256.
abbrev pub IsDrawn : List ℕ → Type 0
IsDrawn [] = ⊥
IsDrawn (b ∷ bs) = b < 256

digit-clean : (n : ℕ) → n < 16 → is_space (if ltb n 10 then b'0' + n else 87 + n) ≡ false
unfolding is_space
digit-clean n h = ground arith

hex-not_blank : (bs : List ℕ) → IsDrawn bs → is_empty (trim_space (hex bs)) ≡ false
unfolding hex trim_space
hex-not_blank [] h = absurd h
hex-not_blank (b ∷ bs) h =
    is_empty-trim is_space (hex (b ∷ bs)) refl (digit-clean (b / 16) (omega arith))

module _ {W : Type 0} (platform : Platform) (r : Redis W) (store : Store r) (cfg : Config) where
  open store use {value}

  -- A state that is verified had this value, and has none any more.
  take_state-ok :
      (state v : Text) (w w' : W) (b : Bool)
      → is_empty (trim_space state) ≡ b
      → take_state state r cfg w ≡ (ok v, w')
      → (value w (state_key cfg state) ≡ some v) × (value w' (state_key cfg state) ≡ none)
  take_state-ok state v w w' true b h = absurd (ground arith)
  take_state-ok state v w w' false b h =
      let taken : (r.get_del (state_key cfg state) >>= found) w ≡ (ok v, w') =
        rw (b, if◌then◌else◌) at h in
      let (o, u, got, done) = and_then-ok _ _ v w' taken in
      let (present, same) = found-ok o v u w' done in
      let (was, gone) = store.get_del_value (state_key cfg state) w u o got in
      (sym was ∙ present, subst (λ x. value x (state_key cfg state) ≡ none) same gone)

  -- VerifyState that succeeds returns the subject that was stored for the state, and takes the state
  -- away: a second VerifyState of the state right after it does not succeed.
  pub verify_state-once :
      (state v : Text) (w w' : W)
      → verify_state (manager r cfg) state w ≡ (ok v, w')
      → (value w (state_key cfg state) ≡ some v)
        × ((u : Text) (w'' : W) → verify_state (manager r cfg) state w' ≢ (ok u, w''))
  unfolding verify_state
  verify_state-once state v w w' h =
      let (was, gone) = take_state-ok state v w w' _ refl h in
      (
        was,
        λ u w'' again.
            let (still, _) = take_state-ok state u w' w'' _ refl again in
            let clash : none ≡ some u = sym gone ∙ still in absurd (ground arith),
      )

  found_as : (o : Option Text) (v : Text) (w : W) → o ≡ some v → found o w ≡ (ok v, w)
  found_as o v w e = rw e refl

  -- VerifyState of a state that NewState returned, right after NewState, succeeds and answers with the
  -- subject of NewState, when Redis answers the command GETDEL. The source of randomness is taken to draw
  -- bytes, of which there is at least one.
  pub verify_state-new_state :
      ((v v' : W) (bytes : List ℕ) → r.random 24 v ≡ (ok bytes, v') → IsDrawn bytes)
      → (subject state : Text) (w w₁ w₂ : W) (o : Option Text)
      → new_state platform (manager r cfg) subject w ≡ (ok state, w₁)
      → r.get_del (state_key cfg state) w₁ ≡ (ok o, w₂)
      → verify_state (manager r cfg) state w₁ ≡ (ok subject, w₂)
  unfolding new_state verify_state
  verify_state-new_state draws subject state w w₁ w₂ o created answered =
      let (bytes, u, drawn, h₁) =
        and_then-ok (λ bytes. store_state platform subject r cfg (hex bytes)) (r.random 24 w) state
          w₁ created in
      let (_, x, set, h₂) =
        and_then-ok (λ _. pure (hex bytes))
          (r.set (state_key cfg (hex bytes)) subject (state_life platform cfg) u) state w₁ h₁ in
      let same : hex bytes ≡ state = pure-injective (hex bytes) state x w₁ h₂ in
      let given =
        subst (λ s. is_empty (trim_space s) ≡ false) same
          (hex-not_blank bytes (draws w u bytes drawn)) in
      let stored =
        store.set_value (state_key cfg (hex bytes)) subject (state_life platform cfg) u x set in
      let at_end : x ≡ w₁ = ap (λ (y : Result Text × W). y.1) h₂ in
      let here =
        subst (λ s. value w₁ (state_key cfg s) ≡ some subject) same
          (subst (λ y. value y (state_key cfg (hex bytes)) ≡ some subject) at_end stored) in
      let (was, _) = store.get_del_value (state_key cfg state) w₁ w₂ o answered in
      rw (given, answered) (found_as o subject w₂ (was ∙ here))
