-- ===== src/Metrics/Registering.antt =====
-- metrics/metrics.go: when the collectors of a service are made.
use aisphere_kit.Base.{
  Text, Result, ok, err, Error, Io, Succeeds, and_then, and_then-Succeeds, ◌>>◌, ◌≡◌, ◌≢◌, refl,
  ◌∙◌, ℕ,
}
use aisphere_kit.Config.Types.{MetricsConfig}
use aisphere_kit.Metrics.{
  Collector, Answer, registered, already, refused, Registerer, Metrics, with_defaults, collectors,
  unless_refused, register, new_metrics,
}

module _ {W : Type 0} (registerer : Registerer W) where
  -- The registerer has no objection to the collector; it may have it already.
  abbrev pub Accepts : Collector → Type 0
  Accepts c = (w : W) (e : Error) → (registerer.register c w).0 ≢ refused e

  -- The registerer takes the collectors of these settings.
  pub record AcceptsAll (m : Metrics) : Type 0 where
    pub requests : Accepts m.requests
    pub duration : Accepts m.duration
    pub dependency_duration : Accepts m.dependency_duration
    pub dependency_errors : Accepts m.dependency_errors

  unless_refused-Succeeds :
      (r : Answer × W) → ((e : Error) → r.0 ≢ refused e) → Succeeds (unless_refused registerer r)
  unless_refused-Succeeds (registered, w) h = refl
  unless_refused-Succeeds (already, w) h = refl
  unless_refused-Succeeds (refused e, w) h = absurd (h e refl)

  register-Succeeds : (c : Collector) → Accepts c → (w : W) → Succeeds (register registerer c w)
  unfolding register
  register-Succeeds c h w = unless_refused-Succeeds _ (h w)

  -- What follows a registration that succeeds.
  next-Succeeds :
      {A : Type 0} (c : Collector) (m : Io W A)
      → Accepts c
      → ((w : W) → Succeeds (m w))
      → (w : W) → Succeeds ((register registerer c >> m) w)
  next-Succeeds c m h k w =
      and_then-Succeeds (register registerer c w) (λ u. m) (register-Succeeds c h w) (λ u. k)

  -- New succeeds when the registerer takes the four collectors, also when it has them already.
  pub new_metrics-Succeeds :
      (cfg : MetricsConfig) (component : Text)
      → AcceptsAll (collectors (with_defaults cfg component))
      → (w : W) → Succeeds (new_metrics registerer cfg component w)
  unfolding new_metrics
  new_metrics-Succeeds cfg component h = next-Succeeds _ _ h.requests (
      next-Succeeds _ _ h.duration (
        next-Succeeds _ _ h.dependency_duration
          (next-Succeeds _ _ h.dependency_errors (λ w. refl))))

  module _ (live : W → ℕ)
      (keeps : (c : Collector) (w : W) → live (registerer.register c w).1 ≡ live w) where
    unless_refused-live : (r : Answer × W) → live (unless_refused registerer r).1 ≡ live r.1
    unless_refused-live (registered, w) = refl
    unless_refused-live (already, w) = refl
    unless_refused-live (refused e, w) = refl

    then-live :
        {A : Type 0} (r : Result (Unit {0}) × W) (m : Io W A)
        → ((w : W) → live (m w).1 ≡ live w)
        → live (and_then (λ u. m) r).1 ≡ live r.1
    then-live (ok u, w) m h = h w
    then-live (err e, w) m h = refl

    next-live :
        {A : Type 0} (c : Collector) (m : Io W A)
        → ((w : W) → live (m w).1 ≡ live w)
        → (w : W) → live ((register registerer c >> m) w).1 ≡ live w
    unfolding register
    next-live c m h w = then-live (register registerer c w) m h ∙ unless_refused-live _ ∙ keeps c w

    -- New keeps what a registration keeps.
    pub new_metrics-live :
        (cfg : MetricsConfig) (component : Text) (w : W)
        → live (new_metrics registerer cfg component w).1 ≡ live w
    unfolding new_metrics
    new_metrics-live cfg component =
        next-live _ _ (next-live _ _ (next-live _ _ (next-live _ _ (λ w. refl))))
