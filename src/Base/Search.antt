-- ===== src/Base/Search.antt =====
-- strings.HasPrefix, TrimPrefix, Contains, ContainsAny, ReplaceAll and Fields.
use Prim.Native.Nat.{ℕ}
use mathlib.Core.Bool.{Bool, true, false, ◌&&◌, ◌||◌}
use mathlib.Core.List.{List, [], ◌∷◌, ◌++◌}
use aisphere_kit.Base.Tests.{eqb, is_empty, if◌then◌else◌}
use aisphere_kit.Base.Strings.{Text, is_space}

unfoldable pub has_prefix : Text → Text → Bool
has_prefix s [] = true
has_prefix [] (d ∷ p) = false
has_prefix (c ∷ s) (d ∷ p) = eqb c d && has_prefix s p

unfoldable pub drop_prefix : Text → Text → Text
drop_prefix s [] = s
drop_prefix [] (d ∷ p) = []
drop_prefix (c ∷ s) (d ∷ p) = drop_prefix s p

-- strings.TrimPrefix
unfoldable pub trim_prefix : Text → Text → Text
trim_prefix s p = if has_prefix s p then drop_prefix s p else s

-- strings.Contains
unfoldable pub contains_text : Text → Text → Bool
contains_text [] p = is_empty p
contains_text (c ∷ s) p = has_prefix (c ∷ s) p || contains_text s p

-- strings.ContainsAny, by a test on characters
unfoldable pub contains_any : (ℕ → Bool) → Text → Bool
contains_any p [] = false
contains_any p (c ∷ s) = p c || contains_any p s

-- strings.ReplaceAll of one character by a text
unfoldable pub replace_all : ℕ → Text → Text → Text
replace_all old new [] = []
replace_all old new (c ∷ s) = (if eqb c old then new else c ∷ []) ++ replace_all old new s

-- strings.ReplaceAll of a text of two characters by another text
unfoldable pub replace_pair : ℕ → ℕ → Text → Text → Text
replace_pair a b new [] = []
replace_pair a b new (c ∷ []) = c ∷ []
replace_pair a b new (c ∷ d ∷ s) =
    let found = replace_pair a b new s in
    let rest = replace_pair a b new (d ∷ s) in if eqb c a && eqb d b then new ++ found else c ∷ rest

-- The fields of a text in front of which `word` was read.
unfoldable pub fields_from : Text → Text → List Text
fields_from word [] = if is_empty word then [] else word ∷ []
fields_from word (c ∷ s) =
    let inside = fields_from (word ++ (c ∷ [])) s in
    let outside = fields_from [] s in
    if is_space c then (if is_empty word then outside else word ∷ outside) else inside

-- strings.Fields
unfoldable pub fields : Text → List Text
unfolding fields_from
fields s = fields_from [] s

abbrev escaped : ℕ → Text
escaped c =
    if eqb c 34
    then 92 ∷ 34 ∷ []
    else if eqb c 92
    then 92 ∷ 92 ∷ []
    else if eqb c 10
    then 92 ∷ b'n' ∷ []
    else if eqb c 13
    then 92 ∷ b'r' ∷ []
    else if eqb c 9
    then 92 ∷ b't' ∷ []
    else c ∷ []

unfoldable pub escape : Text → Text
escape [] = []
escape (c ∷ s) = escaped c ++ escape s

-- The verb `%q` of fmt, for a text whose characters are printable or one of the escapes above.
unfoldable pub quoted : Text → Text
unfolding escape
quoted s = 34 ∷ (escape s ++ (34 ∷ []))
