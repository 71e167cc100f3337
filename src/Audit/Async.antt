-- ===== src/Audit/Async.antt =====
-- audit/audit.go, RecordAsync: recording with a limit on how many run at once.
use aisphere_kit.Base.{
  Bool, true, false, Option, none, some, if◌then◌else◌, ◌*◌, ◌≡◌, refl, ◌∙◌, ℕ, suc, ◌≤◌,
}
use aisphere_kit.Base.Clock.{ℤ, pos, not_positive, second}
use aisphere_kit.Context.{Context}
use aisphere_kit.Audit.{Event, Recorder}

-- A channel of type `chan struct{}`: the select that sends or does not, and the receive.
pub record Limit (W : Type 0) : Type 0 where
  pub try_send : W → Bool × W
  pub receive : W → W

abbrev pub timeout_of : ℤ → ℤ
timeout_of timeout = if not_positive timeout then pos (5 * second) else timeout

module _ {W : Type 0} where
  abbrev pub recorded : Recorder W → Option (Context W) → Event → W → W
  recorded r ctx ev w = (r.record_event ctx ev w).1

  -- `defer func() { <-limit }()`
  abbrev pub limited : Limit W → (W → W) → Bool × W → W
  limited limit body (true, w) = limit.receive (body w)
  limited limit body (false, w) = w

  -- `detached` is context.WithoutCancel and context.WithTimeout.
  unfoldable pub record_async :
      (Option (Context W) → ℤ → Option (Context W))
      → Option (Context W)
      → Option (Recorder W)
      → Event
      → Option (Limit W)
      → ℤ
      → W
      → W
  record_async detached ctx none ev limit timeout w = w
  record_async detached ctx (some r) ev none timeout w =
      recorded r (detached ctx (timeout_of timeout)) ev w
  record_async detached ctx (some r) ev (some limit) timeout w =
      limited limit (recorded r (detached ctx (timeout_of timeout)) ev) (limit.try_send w)

  module _ (r : Recorder W) (limit : Limit W) where
    -- A channel with a capacity: a send takes a free place, and fails only when there is none; a receive
    -- frees one. What records leaves the channel alone.
    pub record Channel : Type 0 where
      pub used : W → ℕ
      pub capacity : ℕ
      pub sends :
          (w w' : W)
          → limit.try_send w ≡ (true, w')
          → (used w' ≡ suc (used w)) × (used w' ≤ capacity)
      pub refuses :
          (w w' : W) → limit.try_send w ≡ (false, w') → (used w' ≡ used w) × (capacity ≤ used w)
      pub receives : (w : W) (n : ℕ) → used w ≡ suc n → used (limit.receive w) ≡ n
      pub records :
          (ctx : Option (Context W)) (ev : Event) (w : W)
          → used (r.record_event ctx ev w).1 ≡ used w

    module _ (channel : Channel) where
      open channel use {used}

      limited_lem :
          (ctx : Option (Context W)) (ev : Event) (q : Bool × W) (w : W)
          → limit.try_send w ≡ q
          → used (limited limit (recorded r ctx ev) q) ≡ used w
      limited_lem ctx ev (true, v) w e =
          channel.receives (recorded r ctx ev v) (used w)
            (channel.records ctx ev v ∙ (channel.sends w v e).0)
      limited_lem ctx ev (false, v) w e = (channel.refuses w v e).0

      -- A RecordAsync gives back the place that it takes: as many are taken after it as before, whether
      -- the event was recorded, failed to be, or was dropped because there was no place.
      pub record_async-Used :
          (detached : Option (Context W) → ℤ → Option (Context W)) (ctx : Option (Context W))
          (ev : Event) (timeout : ℤ) (w : W)
          → used (record_async detached ctx (some r) ev (some limit) timeout w) ≡ used w
      unfolding record_async
      record_async-Used detached ctx ev timeout w =
          limited_lem (detached ctx (timeout_of timeout)) ev (limit.try_send w) w refl
