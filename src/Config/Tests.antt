-- ===== src/Config/Tests.antt =====
-- config: the theorems at concrete inputs.
use aisphere_kit.Base.{Text, [], ◌∷◌, ◌++◌, str, some, ◌≡◌, refl}
use aisphere_kit.Config.Tree.{leaf, table, Table, empty, entry, lookup, merge_map}
use aisphere_kit.Config.Tree.Merging.{overlaid, lookup-merge_map}
use aisphere_kit.Config.Tree.Nesting.{found}
use aisphere_kit.Config.Env.{apply_env}
use aisphere_kit.Config.Env.Overriding.{spelled, found-apply_env}
use aisphere_kit.Config.Load.Checked.{Checked, load-Checked}
use aisphere_kit.Config.Load.{Formats, load, default_config}
use aisphere_kit.Casdoor.Certificate.{Crypto}
use aisphere_kit.Base.{ok, err, plain, true, none}
use aisphere_kit.Samples.{al, doc, read, user}

abbrev base : Table
base = entry user (table (entry al (leaf (str doc)) empty)) empty

abbrev overlay : Table
overlay = entry user (table (entry doc (leaf (str read)) empty)) empty

lookup-merge_map_example :
    lookup (merge_map base overlay) user ≡ overlaid (lookup base user) (lookup overlay user)
unfolding lookup
lookup-merge_map_example = lookup-merge_map base overlay user (refl, tt)

-- A_user__al=doc
abbrev name : Text
name = spelled user (al ∷ [])

found-apply_env_example :
    found
      (apply_env
        (λ s. s)
        base
        (b'A' ∷ b'_' ∷ [])
        ([] ++ (((b'A' ∷ b'_' ∷ []) ++ (name ++ (b'=' ∷ doc))) ∷ [])))
      (user ∷ al ∷ [])
    ≡ some (leaf (str doc))
found-apply_env_example =
    found-apply_env (λ s. s) (b'A' ∷ b'_' ∷ []) (refl, (refl, tt)) base [] name doc user (al ∷ [])
      (refl, (refl, (refl, (refl, (refl, (refl, (refl, (refl, tt)))))))) refl
      ((refl, (refl, (refl, refl))), ((refl, refl), tt))

abbrev crypto : Crypto (Unit {0}) (Unit {0})
crypto = record {
  decode = λ s. (none, []);
  parse_certificate = λ x. ok true;
  parse_pkix_public_key = λ x. ok true;
  parse_pkcs1_public_key = λ x. ok tt;
  read_file = λ file w. (ok doc, w);
  parse_duration = λ s. err (plain al);
}

abbrev formats : Formats (Unit {0})
formats = record {
  tree_of = λ c. base;
  parse_yaml = λ b. ok overlay;
  decode = λ t. ok default_config;
  environ = λ w. ([], w);
  getenv = λ k w. ([], w);
  to_lower = λ s. s;
}

load-Checked_example : Checked crypto formats (load crypto formats (doc ∷ []) tt).0
load-Checked_example = load-Checked crypto formats (doc ∷ []) tt
