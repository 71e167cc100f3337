-- ===== src/Base/Strings/Laws.antt =====
-- Laws of equality, trimming and first_non_empty.
use Prim.Native.Nat.{ℕ}
use mathlib.Core.Path.{◌≡◌, refl}
use mathlib.Core.Logic.{◌↔◌, ◌≢◌}
use mathlib.Core.Bool.{Bool, true, false}
use mathlib.Core.List.{[], ◌∷◌}
use native.Mathlib.Omega.{arith}
use aisphere_kit.Base.Lists.{All}
use aisphere_kit.Base.Strings.{Text, ◌==◌, trim_left, trim}

pub eq_sound : (s t : Text) → (s == t) ≡ true → s ≡ t
unfolding ◌==◌
eq_sound [] [] h = refl
eq_sound [] (d ∷ t) h = cc
eq_sound (c ∷ s) [] h = cc
eq_sound (c ∷ s) (d ∷ t) h = ground (arith, eq_sound s t)

pub eq_refl : (s : Text) → (s == s) ≡ true
unfolding ◌==◌
eq_refl [] = refl
eq_refl (c ∷ s) = ground (arith, eq_refl s)

pub eq_iff : (s t : Text) → ((s == t) ≡ true) ↔ (s ≡ t)
eq_iff s t = (eq_sound s t, λ e. rw e (eq_refl t))

pub unequal : (s t : Text) → (s == t) ≡ false → s ≢ t
unequal s t h e = absurd (ground (arith, eq_iff s t))

module _ (p : ℕ → Bool) where
  pub trim_left-eq-nil : (s : Text) → All (λ c. p c ≡ true) s → trim_left p s ≡ []
  unfolding trim_left
  trim_left-eq-nil [] h = refl
  trim_left-eq-nil (c ∷ s) (hc, hs) = rw hc (trim_left-eq-nil s hs)

  pub trim-eq-nil : (s : Text) → All (λ c. p c ≡ true) s → trim p s ≡ []
  unfolding trim
  trim-eq-nil s h = rw (trim_left-eq-nil s h) refl
