-- ===== src/Base/Strings.antt =====
-- Go strings as lists of code points, and what the source uses of the package strings.
use Prim.Native.Char.{code}
use Prim.Native.String.{String}
use Prim.Native.Nat.{ℕ, ◌+◌}
use mathlib.Core.Path.{◌≡◌, refl}
use mathlib.Core.Logic.{◌↔◌, ◌≢◌}
use mathlib.Core.Bool.{Bool, true, false, ◌&&◌, ◌||◌}
use mathlib.Core.Option.{Option, none, some}
use mathlib.Core.List.{List, [], ◌∷◌, ◌++◌}
use native.Mathlib.Omega.{arith}
use aisphere_kit.Base.Tests.{eqb, leb, if◌then◌else◌}
pub mod Laws
pub mod Trim

abbrev pub Text : Type 0
Text = List ℕ

-- A value of type `any`: a string, or something else by its identity.
pub data Any : Type 0 where
  str : Text → Any
  opaque : ℕ → Any

-- A literal of the source.
unfoldable pub codes : String → Text
codes String.[] = []
codes (String.◌∷◌ c s) = code c ∷ codes s

infix 50 ◌==◌
unfoldable pub ◌==◌ : Text → Text → Bool
[] == [] = true
[] == (d ∷ t) = false
(c ∷ s) == [] = false
(c ∷ s) == (d ∷ t) = eqb c d && s == t

-- unicode.IsSpace
unfoldable pub is_space : ℕ → Bool
is_space c =
    (leb 9 c && leb c 13)
    || eqb c 0x20
    || eqb c 0x85
    || eqb c 0xa0
    || eqb c 0x1680
    || (leb 0x2000 c && leb c 0x200a)
    || eqb c 0x2028
    || eqb c 0x2029
    || eqb c 0x202f
    || eqb c 0x205f
    || eqb c 0x3000

-- strings.TrimLeftFunc, strings.TrimRightFunc and strings.TrimFunc
unfoldable pub trim_left : (ℕ → Bool) → Text → Text
trim_left p [] = []
trim_left p (c ∷ s) = if p c then trim_left p s else c ∷ s

abbrev push_trimmed : (ℕ → Bool) → ℕ → Text → Text
push_trimmed p c [] = if p c then [] else c ∷ []
push_trimmed p c (d ∷ s) = c ∷ d ∷ s

unfoldable pub trim_right : (ℕ → Bool) → Text → Text
trim_right p [] = []
trim_right p (c ∷ s) = push_trimmed p c (trim_right p s)

unfoldable pub trim : (ℕ → Bool) → Text → Text
unfolding trim_left trim_right
trim p s = trim_right p (trim_left p s)

-- strings.TrimSpace
unfoldable pub trim_space : Text → Text
unfolding trim is_space
trim_space s = trim is_space s

-- strings.Join(parts, sep) for a separator of one character
unfoldable pub join : List Text → ℕ → Text
join [] sep = []
join (p ∷ []) sep = p
join (p ∷ q ∷ ps) sep = p ++ (sep ∷ join (q ∷ ps) sep)

-- strings.Cut(s, sep) for a separator of one character; `none` where `sep` does not occur
unfoldable pub cut : Text → ℕ → Option (Text × Text)
cut [] sep = none
cut (c ∷ s) sep =
    let rest = cut s sep in
    if eqb c sep
    then some ([], s)
    else elim rest [ none ↦ none | some (before, after) ↦ some (c ∷ before, after) ]

-- The letter that a character folds to, for a comparison with an ASCII text by strings.EqualFold:
-- an upper-case letter to its lower case, U+017F to `s` and U+212A to `k`.
unfoldable pub fold : ℕ → ℕ
fold c =
    if leb b'A' c && leb c b'Z'
    then c + 32
    else if eqb c 0x17f
    then b's'
    else if eqb c 0x212a
    then b'k'
    else c

-- strings.EqualFold(s, t) for an ASCII `t`
unfoldable pub equal_fold : Text → Text → Bool
equal_fold [] [] = true
equal_fold [] (d ∷ t) = false
equal_fold (c ∷ s) [] = false
equal_fold (c ∷ s) (d ∷ t) = eqb (fold c) (fold d) && equal_fold s t

-- The first text that is not empty: `firstNonEmpty`, of which several packages have a copy.
unfoldable pub first_non_empty : List Text → Text
first_non_empty [] = []
first_non_empty ([] ∷ vs) = first_non_empty vs
first_non_empty ((c ∷ v) ∷ vs) = c ∷ v
