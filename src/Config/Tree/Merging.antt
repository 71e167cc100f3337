-- ===== src/Config/Tree/Merging.antt =====
-- config/config.go, mergeMap: what a key has after a merge.
use aisphere_kit.Base.{
  Text, true, false, Option, none, some, if◌then◌else◌, ◌==◌, eq_sound, eq_refl, unequal, ◌≡◌, ◌≢◌,
  refl, sym, ap, ◌∙◌, Bool-cases, inl, inr,
}
use mathlib.Core.Path.{subst}
use aisphere_kit.Config.Tree.{
  Node, leaf, table, Table, empty, entry, lookup, put, as_table, merge_map, merged,
}

pub lookup-put : (m : Table) (k : Text) (v : Node) → lookup (put m k v) k ≡ some v
unfolding lookup put
lookup-put empty k v = rw (eq_refl k) refl
lookup-put (entry j u t) k v = elim (Bool-cases (j == k)) [
  | inl e ↦ rw (e, e) refl
  | inr e ↦ rw (e, e) (lookup-put t k v)
]

differs : (j k i : Text) → k ≢ i → (j == k) ≡ true → (j == i) ≡ false
differs j k i n e = elim (Bool-cases (j == i)) [
  | inl f ↦ absurd (n (sym (eq_sound j k e) ∙ eq_sound j i f))
  | inr f ↦ f
]

pub lookup-put_other :
    (m : Table) (k i : Text) (v : Node) → k ≢ i → lookup (put m k v) i ≡ lookup m i
unfolding lookup put
lookup-put_other empty k i v n = elim (Bool-cases (k == i)) [
  | inl e ↦ absurd (n (eq_sound k i e))
  | inr e ↦ rw e refl
]
lookup-put_other (entry j u t) k i v n = elim (Bool-cases (j == k)) [
  | inl e ↦ let f = differs j k i n e in rw (e, f) refl
  | inr e ↦ rw e (ap (λ r. if j == i then some u else r) (lookup-put_other t k i v n))
]

-- No key stands twice.
abbrev pub Distinct : Table → Type 0
Distinct empty = Unit
Distinct (entry k v t) = (lookup t k ≡ none) × Distinct t

-- What a key has that one map and another map over it have: a leaf of the second map replaces what
-- there is, a map of the second map is merged into a map of the first, and replaces anything else.
abbrev pub overlaid : Option Node → Option Node → Option Node
overlaid d none = d
overlaid d (some (leaf a)) = some (leaf a)
overlaid none (some (table s)) = some (table s)
overlaid (some (leaf a)) (some (table s)) = some (table s)
overlaid (some (table d)) (some (table s)) = some (table (merge_map d s))

overlaid-merged : (d : Option Node) (v : Node) → some (merged (as_table d) v) ≡ overlaid d (some v)
unfolding merged
overlaid-merged none (leaf a) = refl
overlaid-merged none (table s) = refl
overlaid-merged (some (leaf b)) (leaf a) = refl
overlaid-merged (some (leaf b)) (table s) = refl
overlaid-merged (some (table d)) (leaf a) = refl
overlaid-merged (some (table d)) (table s) = refl

-- After mergeMap with a second map in which no key stands twice, a key that the second map does not
-- have keeps its value; one that has a leaf there has that leaf; and one that has a map there has that
-- map, merged into the map that it had in the first, if it had one.
pub lookup-merge_map :
    (dst src : Table) (k : Text)
    → Distinct src
    → lookup (merge_map dst src) k ≡ overlaid (lookup dst k) (lookup src k)
unfolding merge_map merged lookup
lookup-merge_map dst empty k h = refl
lookup-merge_map dst (entry j v src) k (new, h) =
    let m = merged (as_table (lookup dst j)) v in
    elim (Bool-cases (j == k)) [
      | inl e ↦
          subst
            (λ i.
              lookup (merge_map (put dst j m) src) i
              ≡ overlaid (lookup dst i) (if j == i then some v else lookup src i))
            (eq_sound j k e)
            (lookup-merge_map (put dst j m) src j h
              ∙ rw (lookup-put dst j m, new, eq_refl j) (overlaid-merged (lookup dst j) v))
      | inr e ↦
          lookup-merge_map (put dst j m) src k h
          ∙ rw (e, lookup-put_other dst j k m (unequal j k e)) refl
    ]
