-- ===== src/Db/Dsn.antt =====
-- db/postgres.go: the data source names of Postgres.
use aisphere_kit.Base.{
  ℕ, Text, codes, Bool, true, false, ◌&&◌, ◌||◌, not, List, [], ◌∷◌, ◌++◌, map, keep, any, Option,
  none, some, Result, ok, err, Error, plain, wrapped, eqb, is_empty, is_none, if◌then◌else◌, trim,
  trim_space, cut, join, ◌==◌,
}
use aisphere_kit.Base.Search.{
  has_prefix, trim_prefix, contains_text, contains_any, replace_all, fields,
}
pub mod Quoting

-- net/url: a parsed URL `U` and the values `V` of its query. `with_query u q` is the URL with the
-- encoding of `q` as its raw query.
pub record Urls (U V : Type 0) : Type 0 where
  pub parse : Text → Result U
  pub text : U → Text
  pub query : U → V
  pub with_query : U → V → U
  pub get : V → Text → Text
  pub set : V → Text → Text → V
  pub escaped_path : U → Text
  pub with_path : U → Text → U
  pub path_escape : Text → Text
  pub path_unescape : Text → Result Text

abbrev pub single_quote : ℕ
single_quote = 39

abbrev pub double_quote : ℕ
double_quote = 34

abbrev pub backslash : ℕ
backslash = 92

-- The characters of " \t'\\".
abbrev pub needs_quotes : ℕ → Bool
needs_quotes c = eqb c 32 || eqb c 9 || eqb c single_quote || eqb c backslash

unfoldable pub quote_keyword_value : Text → Text
quote_keyword_value v =
    if is_empty v || contains_any needs_quotes v
    then single_quote
      ∷ (replace_all single_quote (backslash ∷ single_quote ∷ [])
            (replace_all backslash (backslash ∷ backslash ∷ []) v)
          ++ (single_quote ∷ []))
    else v

unfoldable pub escape_single_quoted : Text → Text
escape_single_quoted s = replace_all single_quote (single_quote ∷ single_quote ∷ []) s

unfoldable pub quote_ident : Text → Text
quote_ident s =
    double_quote
    ∷ (replace_all double_quote (double_quote ∷ double_quote ∷ []) s ++ (double_quote ∷ []))

unfoldable pub contains_keyword : Text → Text → Bool
contains_keyword dsn key = contains_text dsn (key ++ (b'=' ∷ []))

-- A Go map from texts to texts, in the order in which a loop meets its entries.
abbrev pub Parts : Type 0
Parts = List (Text × Text)

unfoldable pub lookup : Text → Parts → Option Text
lookup k [] = none
lookup k ((j, v) ∷ ps) = let found = lookup k ps in if j == k then some v else found

unfoldable pub put : Text → Text → Parts → Parts
put k v [] = (k, v) ∷ []
put k v ((j, u) ∷ ps) = let rest = put k v ps in if j == k then (j, v) ∷ ps else (j, u) ∷ rest

-- A field of the data source name goes into the map, unless it has no `=` or an empty key.
abbrev pub put_field : Option (Text × Text) → Parts → Parts
put_field none ps = ps
put_field (some (k, v)) ps = if is_empty k then ps else put k (trim (λ c. eqb c single_quote) v) ps

-- The loop of splitKeywordDSN over the fields.
unfoldable pub split_fields : List Text → Parts → Parts
split_fields [] ps = ps
split_fields (f ∷ fs) ps = split_fields fs (put_field (cut f b'=') ps)

unfoldable pub split_keyword_dsn : Text → Parts
unfolding split_fields
split_keyword_dsn dsn = split_fields (fields dsn) []

-- The keys that joinKeywordDSN writes first.
abbrev pub key_order : List Text
key_order =
    codes "host"
    ∷ codes "port"
    ∷ codes "user"
    ∷ codes "password"
    ∷ codes "dbname"
    ∷ codes "sslmode"
    ∷ codes "connect_timeout"
    ∷ codes "timezone"
    ∷ codes "TimeZone"
    ∷ []

abbrev pub assignment : Text → Text → Text
assignment k v = k ++ (b'=' ∷ quote_keyword_value v)

-- The first loop of joinKeywordDSN, over the ordered keys.
unfoldable pub ordered : List Text → Parts → List Text
ordered [] ps = []
ordered (k ∷ ks) ps =
    let rest = ordered ks ps in elim (lookup k ps) [ none ↦ rest | some v ↦ assignment k v ∷ rest ]

-- The second loop, over the entries that the first did not see.
unfoldable pub unordered : List Text → Parts → List Text
unordered ks [] = []
unordered ks ((k, v) ∷ ps) =
    let rest = unordered ks ps in if any (λ j. j == k) ks then rest else assignment k v ∷ rest

unfoldable pub join_keyword_dsn : Parts → Text
join_keyword_dsn ps = join (ordered key_order ps ++ unordered key_order ps) b' '

abbrev pub is_url : Text → Bool
is_url dsn = has_prefix dsn (codes "postgres://") || has_prefix dsn (codes "postgresql://")

abbrev pub or_disable : Text → Text
or_disable [] = codes "disable"
or_disable (c ∷ mode) = c ∷ mode

unfoldable pub with_ssl_keyword : Text → Text → Text
with_ssl_keyword dsn mode =
    if contains_keyword dsn (codes "sslmode")
    then dsn
    else trim_space dsn ++ (codes " sslmode=" ++ or_disable mode)

-- `path` is the search path without the space around it.
unfoldable pub with_path_keyword : Text → Text → Text
with_path_keyword dsn path =
    if not (is_empty path)
      && not (contains_keyword dsn (codes "options"))
      && not (contains_keyword dsn (codes "search_path"))
    then trim_space dsn
      ++ (codes " options='-c search_path=" ++ (escape_single_quoted path ++ (single_quote ∷ [])))
    else dsn

module _ {U V : Type 0} (urls : Urls U V) where
  abbrev with_ssl_query : V → Text → V
  with_ssl_query q mode =
      if is_empty (urls.get q (codes "sslmode"))
      then urls.set q (codes "sslmode") (or_disable mode)
      else q

  abbrev with_path_query : V → Text → V
  with_path_query q path =
      if not (is_empty path)
        && not (contains_text (urls.get q (codes "options")) (codes "search_path"))
      then urls.set q (codes "options")
          (trim_space (urls.get q (codes "options") ++ (codes " -c search_path=" ++ path)))
      else q

  unfoldable pub normalize_url : U → Text → Text → Text
  normalize_url u mode path =
      urls.text (urls.with_query u (with_path_query (with_ssl_query (urls.query u) mode) path))

  unfoldable pub normalize_keywords : Text → Text → Text → Text
  unfolding with_ssl_keyword with_path_keyword
  normalize_keywords dsn mode path = with_path_keyword (with_ssl_keyword dsn mode) path

  -- A URL that does not parse is taken as keywords.
  abbrev by_parse : Result U → Text → Text → Text → Text
  by_parse (ok u) dsn mode path = normalize_url u mode path
  by_parse (err e) dsn mode path = normalize_keywords dsn mode path

  unfoldable pub normalize_postgres_dsn : Text → Text → Text → Text
  unfolding normalize_url normalize_keywords
  normalize_postgres_dsn dsn mode search_path =
      if is_url dsn
      then by_parse (urls.parse dsn) dsn mode (trim_space search_path)
      else normalize_keywords dsn mode (trim_space search_path)

  abbrev or_postgres : Text → Text
  or_postgres [] = codes "postgres"
  or_postgres (c ∷ name) = c ∷ name

  abbrev with_database : U → Text → Result Text → Result (Text × Text)
  with_database u maintenance (err e) = err (wrapped (codes "decode postgres database name: ") e [])
  with_database u maintenance (ok name) =
      ok (name, urls.text (urls.with_path u (b'/' ∷ urls.path_escape maintenance)))

  abbrev of_target : U → Text → Text → Result (Text × Text)
  of_target u maintenance target =
      if is_empty target
      then err
          (plain (codes "postgres dsn path must include database name for auto_create_database"))
      else with_database u maintenance (urls.path_unescape target)

  abbrev of_url : Text → Result U → Result (Text × Text)
  of_url maintenance (err e) = err (wrapped (codes "parse postgres dsn: ") e [])
  of_url maintenance (ok u) =
      of_target u maintenance (trim_prefix (urls.escaped_path u) (b'/' ∷ []))

  -- A missing key reads as the empty text.
  abbrev of_parts : Text → Parts → Option Text → Result (Text × Text)
  of_parts maintenance ps none =
      err (plain (codes "postgres keyword dsn must include dbname for auto_create_database"))
  of_parts maintenance ps (some []) =
      err (plain (codes "postgres keyword dsn must include dbname for auto_create_database"))
  of_parts maintenance ps (some (c ∷ target)) =
      ok (c ∷ target, join_keyword_dsn (put (codes "dbname") maintenance ps))

  -- The target database, and the data source name of the maintenance database.
  unfoldable pub postgres_maintenance_dsn : Text → Text → Result (Text × Text)
  postgres_maintenance_dsn dsn maintenance_db =
      let maintenance = or_postgres (trim_space maintenance_db) in
      let trimmed = trim_space dsn in
      if is_url trimmed
      then of_url maintenance (urls.parse trimmed)
      else of_parts maintenance (split_keyword_dsn trimmed)
          (lookup (codes "dbname") (split_keyword_dsn trimmed))
