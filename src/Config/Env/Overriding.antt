-- ===== src/Config/Env/Overriding.antt =====
-- config/config.go, applyEnv: a variable sets the path that its name spells.
use aisphere_kit.Base.{
  Text, str, true, false, ◌&&◌, List, [], ◌∷◌, ◌++◌, append_assoc, append-nil, some, eqb, eqb_refl,
  cut, ◌≡◌, refl, sym, ap, ◌∙◌,
}
use aisphere_kit.Base.Search.{has_prefix, drop_prefix, trim_prefix}
use aisphere_kit.Config.Tree.{leaf, Table}
use aisphere_kit.Config.Tree.Nesting.{found, found-set_nested}
use aisphere_kit.Config.Env.{split_from, env_entry, with_entry, apply_env}

-- A name with no two underscores in a row and none at its end.
abbrev pub IsKey : Text → Type 0
IsKey [] = Unit
IsKey (c ∷ []) = eqb c b'_' ≡ false
IsKey (c ∷ d ∷ s) = (eqb c b'_' && eqb d b'_' ≡ false) × IsKey (d ∷ s)

abbrev pub AllKeys : List Text → Type 0
AllKeys [] = Unit
AllKeys (k ∷ ks) = IsKey k × AllKeys ks

-- The keys of a path with two underscores in between.
abbrev pub spelled : Text → List Text → Text
spelled k [] = k
spelled k (j ∷ ks) = k ++ (b'_' ∷ b'_' ∷ spelled j ks)

split_last : (word k : Text) → IsKey k → split_from word k ≡ (word ++ k) ∷ []
unfolding split_from
split_last word [] h = rw append-nil refl
split_last word (c ∷ []) h = refl
split_last word (c ∷ d ∷ s) (h, hs) = rw h (
    split_last (word ++ (c ∷ [])) (d ∷ s) hs
    ∙ ap (λ t. t ∷ []) (append_assoc word (c ∷ []) (d ∷ s)))

split_first :
    (word k rest : Text)
    → IsKey k
    → split_from word (k ++ (b'_' ∷ b'_' ∷ rest)) ≡ (word ++ k) ∷ split_from [] rest
unfolding split_from
split_first word [] rest h = rw append-nil refl
split_first word (c ∷ []) rest h = rw h refl
split_first word (c ∷ d ∷ s) rest (h, hs) = rw h (
    split_first (word ++ (c ∷ [])) (d ∷ s) rest hs
    ∙ ap (λ t. t ∷ split_from [] rest) (append_assoc word (c ∷ []) (d ∷ s)))

-- Splitting reads back the keys of a path.
split-spelled :
    (k : Text) (ks : List Text) → AllKeys (k ∷ ks) → split_from [] (spelled k ks) ≡ k ∷ ks
split-spelled k [] (h, hs) = split_last [] k h
split-spelled k (j ∷ ks) (h, hs) =
    split_first [] k (spelled j ks) h ∙ ap (λ t. k ∷ t) (split-spelled j ks hs)

-- No equals sign stands in a text.
abbrev pub NoEquals : Text → Type 0
NoEquals [] = Unit
NoEquals (c ∷ s) = (eqb c b'=' ≡ false) × NoEquals s

cut-first : (s v : Text) → NoEquals s → cut (s ++ (b'=' ∷ v)) b'=' ≡ some (s, v)
unfolding cut
cut-first [] v h = refl
cut-first (c ∷ s) v (h, hs) = rw (h, cut-first s v hs) refl

has_prefix-append : (p s : Text) → has_prefix (p ++ s) p ≡ true
unfolding has_prefix
has_prefix-append [] [] = refl
has_prefix-append [] (c ∷ s) = refl
has_prefix-append (c ∷ p) s = rw (eqb_refl c) (has_prefix-append p s)

drop_prefix-append : (p s : Text) → drop_prefix (p ++ s) p ≡ s
unfolding drop_prefix
drop_prefix-append [] [] = refl
drop_prefix-append [] (c ∷ s) = refl
drop_prefix-append (c ∷ p) s = drop_prefix-append p s

trim_prefix-append : (p s : Text) → trim_prefix (p ++ s) p ≡ s
unfolding trim_prefix
trim_prefix-append p s = rw (has_prefix-append p s) (drop_prefix-append p s)

NoEquals-append : (s t : Text) → NoEquals s → NoEquals t → NoEquals (s ++ t)
NoEquals-append [] t h k = k
NoEquals-append (c ∷ s) t (h, hs) k = (h, NoEquals-append s t hs k)

module _ (to_lower : Text → Text) (prefix : Text) (named : NoEquals prefix) where
  env_entry-spelled :
      (name v k : Text) (ks : List Text)
      → NoEquals name
      → to_lower name ≡ spelled k ks
      → AllKeys (k ∷ ks)
      → env_entry to_lower prefix (prefix ++ (name ++ (b'=' ∷ v))) ≡ some (k ∷ ks, v)
  unfolding env_entry
  env_entry-spelled name v k ks h lower keys =
      let parts =
        ap (λ s. cut s b'=') (sym (append_assoc prefix name (b'=' ∷ v)))
        ∙ cut-first (prefix ++ name) v (NoEquals-append prefix name named h) in
      rw
        (
          has_prefix-append prefix (name ++ (b'=' ∷ v)),
          parts,
          trim_prefix-append prefix name,
          lower,
          split-spelled k ks keys,
        )
        refl

  apply_env-last :
      (root : Table) (kvs : List Text) (kv : Text)
      → apply_env to_lower root prefix (kvs ++ (kv ∷ []))
        ≡ with_entry to_lower (apply_env to_lower root prefix kvs) (env_entry to_lower prefix kv)
  unfolding apply_env
  apply_env-last root [] kv = refl
  apply_env-last root (e ∷ kvs) kv =
      apply_env-last (with_entry to_lower root (env_entry to_lower prefix e)) kvs kv

  -- A variable sets the path that its name spells: after applyEnv the text behind the equals sign stands
  -- where the keys of the name lead, which two underscores separate, whatever the files and the variables
  -- before it said. The keys have no two underscores in a row and none at their end, and no equals sign
  -- stands in the name.
  pub found-apply_env :
      (root : Table) (kvs : List Text) (name v k : Text) (ks : List Text)
      → NoEquals name
      → to_lower name ≡ spelled k ks
      → AllKeys (k ∷ ks)
      → found
          (apply_env to_lower root prefix (kvs ++ ((prefix ++ (name ++ (b'=' ∷ v))) ∷ [])))
          (k ∷ ks)
        ≡ some (leaf (str v))
  found-apply_env root kvs name v k ks h lower keys =
      rw
        (
          apply_env-last root kvs (prefix ++ (name ++ (b'=' ∷ v))),
          env_entry-spelled name v k ks h lower keys,
        )
        (found-set_nested (apply_env to_lower root prefix kvs) k ks (leaf (str v)))
