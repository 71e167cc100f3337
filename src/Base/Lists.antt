-- ===== src/Base/Lists.antt =====
-- Lists measured by native numbers, the Boolean quantifiers, and a predicate on every item.
use Prim.Native.Nat.{ℕ, suc, ◌+◌}
use mathlib.Core.Path.{◌≡◌, refl}
use mathlib.Core.Bool.{Bool, false, ◌||◌}
use mathlib.Core.List.{List, [], ◌∷◌, ◌++◌}
use native.Mathlib.Omega.{arith}
use aisphere_kit.Base.Tests.{if◌then◌else◌}

module _ {ℓ} {A : Type ℓ} where
  abbrev pub length : List A → ℕ
  length [] = 0
  length (x ∷ xs) = suc (length xs)

  pub length-append : (xs ys : List A) → length (xs ++ ys) ≡ length xs + length ys
  length-append [] ys = omega arith
  length-append (x ∷ xs) ys = omega (arith, length-append xs ys)

  -- The items that pass a test, in their order.
  unfoldable pub keep : (A → Bool) → List A → List A
  keep p [] = []
  keep p (x ∷ xs) = if p x then x ∷ keep p xs else keep p xs

  unfoldable pub any : (A → Bool) → List A → Bool
  any p [] = false
  any p (x ∷ xs) = p x || any p xs

unfoldable pub concat {ℓ} : {A : Type ℓ} → List (List A) → List A
concat [] = []
concat (xs ∷ rest) = xs ++ concat rest

module _ {ℓ κ} {A : Type ℓ} (P : A → Type κ) where
  abbrev pub All : List A → Type κ
  All [] = Unit
  All (x ∷ xs) = P x × All xs

  pub All-append : (xs ys : List A) → All xs → All ys → All (xs ++ ys)
  All-append [] ys _ hy = hy
  All-append (x ∷ xs) ys (px, hx) hy = (px, All-append xs ys hx hy)

module _ {ℓ} {A : Type ℓ} where
  abbrev pub IsNil : List A → Type ℓ
  IsNil xs = xs ≡ []

  parts-IsNil : (xs ys : List A) → IsNil (xs ++ ys) → IsNil xs × IsNil ys
  parts-IsNil [] ys h = (refl, h)
  parts-IsNil (x ∷ xs) ys h = absurd (ground arith)

  -- Lists that have no items together have none one by one.
  pub concat-IsNil : (xss : List (List A)) → IsNil (concat xss) → All IsNil xss
  unfolding concat
  concat-IsNil [] h = tt
  concat-IsNil (xs ∷ xss) h = let (p, q) = parts-IsNil xs (concat xss) h in (p, concat-IsNil xss q)
