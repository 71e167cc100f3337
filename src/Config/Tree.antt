-- ===== src/Config/Tree.antt =====
-- config/config.go: mergeMap and setNested, on the trees that YAML is read into.
use aisphere_kit.Base.{
  Text, Any, str, Bool, true, false, List, [], ◌∷◌, Option, none, some, if◌then◌else◌, ◌==◌,
}
pub mod Merging
pub mod Nesting

mutual
  -- A value of type `any`: a map[string]any, or something else.
  pub data Node : Type 0 where
    leaf : Any → Node
    table : Table → Node

  -- A map[string]any; a key that stands twice has its first value.
  pub data Table : Type 0 where
    empty : Table
    entry : Text → Node → Table → Table

unfoldable pub lookup : Table → Text → Option Node
lookup empty k = none
lookup (entry j v t) k = let rest = lookup t k in if j == k then some v else rest

-- m[k] = v
unfoldable pub put : Table → Text → Node → Table
put empty k v = entry k v empty
put (entry j u t) k v = let rest = put t k v in if j == k then entry j v t else entry j u rest

-- The assertion `m[k].(map[string]any)`.
abbrev pub as_table : Option Node → Option Table
as_table none = none
as_table (some (leaf a)) = none
as_table (some (table t)) = some t

unfoldable mutual
  unfolding lookup put

  -- mergeMap(dst, src), whose entries are merged one after another.
  pub merge_map : Table → Table → Table
  merge_map dst empty = dst
  merge_map dst (entry k v src) = merge_map (put dst k (merged (as_table (lookup dst k)) v)) src

  -- What an entry becomes: both maps are merged, and anything else is overwritten.
  pub merged : Option Table → Node → Node
  merged none v = v
  merged (some d) (leaf a) = leaf a
  merged (some d) (table s) = table (merge_map d s)

abbrev pub table_or_new : Option Table → Table
table_or_new none = empty
table_or_new (some t) = t

-- setNested(m, keys, v)
unfoldable pub set_nested : Table → List Text → Node → Table
unfolding lookup put
set_nested m [] v = m
set_nested m (k ∷ []) v = put m k v
set_nested m (k ∷ j ∷ keys) v =
    put m k (table (set_nested (table_or_new (as_table (lookup m k))) (j ∷ keys) v))
