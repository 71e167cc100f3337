-- ===== src/Config/Tree/Nesting.antt =====
-- config/config.go, setNested: what stands at a path after a value was set at one.
use aisphere_kit.Base.{
  Text, List, [], ◌∷◌, Option, none, some, ◌≡◌, ◌≢◌, ◌⊎◌, inl, inr, refl, ap, ◌∙◌,
}
use mathlib.Core.Path.{subst}
use aisphere_kit.Config.Tree.{Node, table, Table, lookup, put, as_table, table_or_new, set_nested}
use aisphere_kit.Config.Tree.Merging.{lookup-put, lookup-put_other}

-- What stands at a path of the map, if there is one.
unfoldable pub found_in : Option Table → List Text → Option Node
unfolding lookup
found_in none keys = none
found_in (some m) [] = some (table m)
found_in (some m) (k ∷ []) = lookup m k
found_in (some m) (k ∷ j ∷ keys) = found_in (as_table (lookup m k)) (j ∷ keys)

abbrev pub found : Table → List Text → Option Node
found m keys = found_in (some m) keys

-- setNested puts the value where its keys lead, whatever stood on the way.
pub found-set_nested :
    (m : Table) (k : Text) (keys : List Text) (v : Node)
    → found (set_nested m (k ∷ keys) v) (k ∷ keys) ≡ some v
unfolding found_in set_nested
found-set_nested m k [] v = lookup-put m k v
found-set_nested m k (j ∷ keys) v =
    let t = set_nested (table_or_new (as_table (lookup m k))) (j ∷ keys) v in
    ap (λ o. found_in (as_table o) (j ∷ keys)) (lookup-put m k (table t))
    ∙ found-set_nested (table_or_new (as_table (lookup m k))) j keys v

-- Two paths part at some key: neither leads through the other.
abbrev pub Part : List Text → List Text → Type 0
Part [] others = ⊥
Part (k ∷ keys) [] = ⊥
Part (k ∷ keys) (i ∷ others) = (k ≢ i) ⊎ ((k ≡ i) × Part keys others)

set_nested-other :
    (m : Table) (k i : Text) (keys : List Text) (v : Node)
    → k ≢ i
    → lookup (set_nested m (k ∷ keys) v) i ≡ lookup m i
unfolding set_nested
set_nested-other m k i [] v n = lookup-put_other m k i v n
set_nested-other m k i (j ∷ keys) v n = lookup-put_other m k i _ n

found-by_lookup :
    (m n : Table) (i : Text) (others : List Text)
    → lookup m i ≡ lookup n i
    → found m (i ∷ others) ≡ found n (i ∷ others)
unfolding found_in
found-by_lookup m n i [] h = h
found-by_lookup m n i (l ∷ others) h = ap (λ o. found_in (as_table o) (l ∷ others)) h

found-new :
    (o : Option Table) (l : Text) (others : List Text)
    → found (table_or_new o) (l ∷ others) ≡ found_in o (l ∷ others)
unfolding found_in lookup
found-new none l [] = refl
found-new none l (j ∷ others) = refl
found-new (some t) l others = refl

-- setNested changes nothing at a path that parts from the keys, although it makes a map of what is
-- none on its way.
pub found-set_nested_other :
    (m : Table) (keys others : List Text) (v : Node)
    → Part keys others
    → found (set_nested m keys v) others ≡ found m others
unfolding found_in set_nested
found-set_nested_other m [] others v h = absurd h
found-set_nested_other m (k ∷ keys) [] v h = absurd h
found-set_nested_other m (k ∷ keys) (i ∷ others) v (inl n) =
    found-by_lookup (set_nested m (k ∷ keys) v) m i others (set_nested-other m k i keys v n)
found-set_nested_other m (k ∷ []) (i ∷ others) v (inr (e, h)) = absurd h
found-set_nested_other m (k ∷ j ∷ keys) (i ∷ []) v (inr (e, h)) = absurd h
found-set_nested_other m (k ∷ j ∷ keys) (i ∷ l ∷ others) v (inr (e, h)) =
    let o = as_table (lookup m k) in
    let t = set_nested (table_or_new o) (j ∷ keys) v in
    subst (λ x. found (put m k (table t)) (x ∷ l ∷ others) ≡ found m (x ∷ l ∷ others)) e
      (ap (λ p. found_in (as_table p) (l ∷ others)) (lookup-put m k (table t))
        ∙ found-set_nested_other (table_or_new o) (j ∷ keys) (l ∷ others) v h
        ∙ found-new o l others)
