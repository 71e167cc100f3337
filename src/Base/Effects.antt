-- ===== src/Base/Effects.antt =====
-- A Go function with effects: it takes the world and returns `(value, error)` with the new world.
use mathlib.Core.Option.{Option, none, some}
use mathlib.Core.Path.{◌≡◌, refl}
use Prim.Native.Nat.{ℕ, suc}
use mathlib.Core.Bool.{Bool, true, false}
use native.Mathlib.Omega.{arith}
use aisphere_kit.Base.Failures.{Error}

-- A result `(value, error)` where one of the two is the zero value.
pub data Result {ℓ} (A : Type ℓ) : Type ℓ where
  ok : A → Result A
  err : Error → Result A

abbrev pub Io : Type 0 → Type 0 → Type 0
Io W A = W → Result A × W

abbrev pub pure : {W A : Type 0} → A → Io W A
pure a w = (ok a, w)

abbrev pub fail : {W A : Type 0} → Error → Io W A
fail e w = (err e, w)

-- What follows `if err != nil { return err }`.
abbrev pub and_then : {W A B : Type 0} → (A → Io W B) → Result A × W → Result B × W
and_then f (ok a, w) = f a w
and_then f (err e, w) = (err e, w)

infixl 5 ◌>>=◌ ◌>>◌
abbrev pub ◌>>=◌ : {W A B : Type 0} → Io W A → (A → Io W B) → Io W B
◌>>=◌ m f w = and_then f (m w)

abbrev pub ◌>>◌ : {W B : Type 0} → Io W (Unit {0}) → Io W B → Io W B
◌>>◌ m k w = and_then (λ _. k) (m w)

-- A pure check inside an effectful function.
abbrev pub lift : {W A : Type 0} → Result A → Io W A
lift r w = (r, w)

abbrev pub failed : {A : Type 0} → Result A → Option Error
failed (ok a) = none
failed (err e) = some e

-- A chain that succeeds: its first part succeeded, and what follows it did.
pub and_then-ok :
    {W A B : Type 0} (f : A → W → Result B × W) (r : Result A × W) (b : B) (w' : W)
    → and_then f r ≡ (ok b, w')
    → (a : A) × (v : W) × (r ≡ (ok a, v)) × (f a v ≡ (ok b, w'))
and_then-ok f (ok a, v) b w' h = (a, v, refl, h)
and_then-ok f (err e, v) b w' h = absurd (ground arith)

-- A result determines its value.
pub pure-injective : {W A : Type 0} (a b : A) (v w : W) → pure a v ≡ (ok b, w) → a ≡ b
pure-injective a b v w h = cc

-- What a step that opens something does to the number of what is open: one more when it succeeds, and
-- nothing when it fails.
abbrev pub OneMore : {W A : Type 0} → (W → ℕ) → ℕ → Result A × W → Type 0
OneMore live n (ok a, w) = live w ≡ suc n
OneMore live n (err e, w) = live w ≡ n

-- What follows a pure check that may fail.
pub and_then-OneMore :
    {W A B : Type 0} (live : W → ℕ) (r : Result A) (f : A → W → Result B × W) (w : W)
    → ((a : A) → OneMore live (live w) (f a w))
    → OneMore live (live w) (and_then f (r, w))
and_then-OneMore live (ok a) f w h = h a
and_then-OneMore live (err e) f w h = refl

-- The test `err == nil`.
abbrev pub is_ok : {A : Type 0} → Result A → Bool
is_ok (ok a) = true
is_ok (err e) = false

abbrev pub Succeeds : {W A : Type 0} → Result A × W → Type 0
Succeeds r = is_ok r.0 ≡ true

pub and_then-Succeeds :
    {W A B : Type 0} (r : Result A × W) (f : A → W → Result B × W)
    → Succeeds r
    → ((a : A) (w : W) → Succeeds (f a w))
    → Succeeds (and_then f r)
and_then-Succeeds (ok a, w) f h k = k a w
and_then-Succeeds (err e, w) f h k = absurd (ground arith)
