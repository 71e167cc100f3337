-- ===== src/Config/Env.antt =====
-- config/config.go, applyEnv: settings from environment variables.
use aisphere_kit.Base.{
  Text, codes, str, Bool, ◌&&◌, List, [], ◌∷◌, ◌++◌, Option, none, some, eqb, cut, if◌then◌else◌,
}
use aisphere_kit.Base.Search.{has_prefix, trim_prefix}
use aisphere_kit.Config.Tree.{leaf, Table, set_nested}
pub mod Overriding

-- The fields of strings.Split(s, "__"), behind `word`.
unfoldable pub split_from : Text → Text → List Text
split_from word [] = word ∷ []
split_from word (c ∷ []) = (word ++ (c ∷ [])) ∷ []
split_from word (c ∷ d ∷ s) =
    let after = split_from [] s in
    let inside = split_from (word ++ (c ∷ [])) (d ∷ s) in
    if eqb c b'_' && eqb d b'_' then word ∷ after else inside

module _ (to_lower : Text → Text) where
  abbrev keys_of : Text → Option (Text × Text) → Option (List Text × Text)
  keys_of prefix none = none
  keys_of prefix (some (name, v)) = some (split_from [] (to_lower (trim_prefix name prefix)), v)

  -- The path and the value that a variable sets; `to_lower` is strings.ToLower.
  unfoldable pub env_entry : Text → Text → Option (List Text × Text)
  unfolding split_from
  env_entry prefix kv = if has_prefix kv prefix then keys_of prefix (cut kv b'=') else none

  abbrev pub with_entry : Table → Option (List Text × Text) → Table
  with_entry root none = root
  with_entry root (some (keys, v)) = set_nested root keys (leaf (str v))

  -- The loop over os.Environ.
  unfoldable pub apply_env : Table → Text → List Text → Table
  unfolding env_entry
  apply_env root prefix [] = root
  apply_env root prefix (kv ∷ kvs) = apply_env (with_entry root (env_entry prefix kv)) prefix kvs
