-- ===== src/Base/Strings/Trim.antt =====
-- Laws of trimming.
use Prim.Native.Nat.{ℕ}
use mathlib.Core.Path.{◌≡◌, refl, ap, ◌∙◌}
use mathlib.Core.Bool.{Bool, false}
use mathlib.Core.Logic.{inl, inr}
use mathlib.Core.List.{[], ◌∷◌, ◌++◌}
use native.Mathlib.Omega.{arith}
use aisphere_kit.Base.Tests.{Bool-cases, is_empty}
use aisphere_kit.Base.Strings.{Text, trim_left, trim_right, push_trimmed, trim}

module _ (p : ℕ → Bool) where
  -- The first character, if there is one, is not trimmed.
  abbrev pub StartsClean : Text → Type 0
  StartsClean [] = Unit
  StartsClean (c ∷ s) = p c ≡ false

  -- So is the last one.
  abbrev pub EndsClean : Text → Type 0
  EndsClean [] = Unit
  EndsClean (c ∷ []) = p c ≡ false
  EndsClean (c ∷ d ∷ s) = EndsClean (d ∷ s)

  trim_left-StartsClean : (s : Text) → StartsClean (trim_left p s)
  unfolding trim_left
  trim_left-StartsClean [] = tt
  trim_left-StartsClean (c ∷ s) = elim (Bool-cases (p c)) [
    | inl e ↦ rw e (trim_left-StartsClean s)
    | inr e ↦ rw e e
  ]

  trim_left_of_StartsClean : (s : Text) → StartsClean s → trim_left p s ≡ s
  unfolding trim_left
  trim_left_of_StartsClean [] h = refl
  trim_left_of_StartsClean (c ∷ s) h = rw h refl

  push_trimmed-clean : (c : ℕ) (s : Text) → p c ≡ false → push_trimmed p c s ≡ c ∷ s
  push_trimmed-clean c [] h = rw h refl
  push_trimmed-clean c (d ∷ s) h = refl

  trim_right-StartsClean : (s : Text) → StartsClean s → StartsClean (trim_right p s)
  unfolding trim_right
  trim_right-StartsClean [] h = tt
  trim_right-StartsClean (c ∷ s) h = rw (push_trimmed-clean c (trim_right p s) h) h

  -- A text whose first character is not trimmed is not trimmed away.
  pub is_empty-trim : (s : Text) → is_empty s ≡ false → StartsClean s → is_empty (trim p s) ≡ false
  unfolding trim trim_left trim_right
  is_empty-trim [] n h = absurd (ground arith)
  is_empty-trim (c ∷ s) n h = rw (h, push_trimmed-clean c (trim_right p s) h) refl

  push_trimmed-EndsClean : (c : ℕ) (s : Text) → EndsClean s → EndsClean (push_trimmed p c s)
  push_trimmed-EndsClean c [] h = elim (Bool-cases (p c)) [ inl e ↦ rw e tt | inr e ↦ rw e e ]
  push_trimmed-EndsClean c (d ∷ s) h = h

  trim_right-EndsClean : (s : Text) → EndsClean (trim_right p s)
  unfolding trim_right
  trim_right-EndsClean [] = tt
  trim_right-EndsClean (c ∷ s) = push_trimmed-EndsClean c (trim_right p s) (trim_right-EndsClean s)

  trim_right_of_EndsClean : (s : Text) → EndsClean s → trim_right p s ≡ s
  unfolding trim_right
  trim_right_of_EndsClean [] h = refl
  trim_right_of_EndsClean (c ∷ []) h = rw h refl
  trim_right_of_EndsClean (c ∷ d ∷ s) h = ap (push_trimmed p c) (trim_right_of_EndsClean (d ∷ s) h)

  pub trim_of_clean : (s : Text) → StartsClean s → EndsClean s → trim p s ≡ s
  unfolding trim
  trim_of_clean s h k =
      ap (trim_right p) (trim_left_of_StartsClean s h) ∙ trim_right_of_EndsClean s k

  pub trim-clean : (s : Text) → StartsClean (trim p s) × EndsClean (trim p s)
  unfolding trim
  trim-clean s = (
    trim_right-StartsClean (trim_left p s) (trim_left-StartsClean s),
    trim_right-EndsClean (trim_left p s),
  )

  pub trim_idem : (s : Text) → trim p (trim p s) ≡ trim p s
  trim_idem s = trim_of_clean (trim p s) (trim-clean s).0 (trim-clean s).1

  pub EndsClean-append : (s t : Text) → is_empty t ≡ false → EndsClean t → EndsClean (s ++ t)
  EndsClean-append [] t n h = h
  EndsClean-append (c ∷ []) [] n h = absurd (ground arith)
  EndsClean-append (c ∷ []) (d ∷ t) n h = h
  EndsClean-append (c ∷ d ∷ s) t n h = EndsClean-append (d ∷ s) t n h

  pub EndsClean-of_trim : (s : Text) → trim p s ≡ s → EndsClean s
  EndsClean-of_trim s h = rw h at ((trim-clean s).1)
