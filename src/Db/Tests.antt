-- ===== src/Db/Tests.antt =====
-- db: the theorems at concrete inputs.
use aisphere_kit.Base.{Text, [], ◌∷◌, List, ◌≡◌, ◌⊎◌}
use aisphere_kit.Base.Clock.{pos, negsuc}
use aisphere_kit.Db.Page.{PageRequest, normalize_page, Query, apply_sort}
use aisphere_kit.Db.Page.Sorting.{IsPage, normalize_page-IsPage, IsSorted, apply_sort-IsSorted}
use Prim.Native.Nat.{ℕ, suc}
use aisphere_kit.Base.{Option, none, some, ◌++◌, OneMore, Error, refl}
use aisphere_kit.Context.{Context}
use aisphere_kit.Db.Dsn.{
  single_quote, double_quote, quote_keyword_value, escape_single_quoted, quote_ident,
}
use aisphere_kit.Db.Dsn.Quoting.{
  read_ident, read_value, read_ident-quote_ident, read_value-quote_keyword_value,
  read_value-escape_single_quoted,
}
use aisphere_kit.Db.Connect.{new_database}
use aisphere_kit.Db.Connect.Pools.{new_database-OneMore}
use aisphere_kit.Db.Tx.{Gorm, with_tx}
use aisphere_kit.Db.Tx.Nesting.{with_tx-nested}
use aisphere_kit.Starter.Sample.{sample_drivers, sample_urls, sample_pools, sample_config}
use aisphere_kit.Samples.{quiet, al, doc, read}

abbrev request : PageRequest
request = record {
  page = negsuc 4;
  page_size = pos 1_000;
  sort = read;
  sort_by = al;
  sort_order = [];
}

-- A query that lists the texts it is sorted by.
abbrev query : Query (List Text)
query = record { order_column = λ c desc q. c ∷ q; order_text = λ t q. t ∷ q }

normalize_page-IsPage_example : IsPage (normalize_page request)
normalize_page-IsPage_example = normalize_page-IsPage request

apply_sort-IsSorted_example :
    (apply_sort query [] request ((al, doc) ∷ []) ≡ [])
    ⊎ IsSorted query [] (apply_sort query [] request ((al, doc) ∷ [])) request ((al, doc) ∷ [])
apply_sort-IsSorted_example = apply_sort-IsSorted query [] request (al, doc) []

-- A name with a quote in it.
abbrev name : Text
name = b'a' ∷ double_quote ∷ b'b' ∷ []

read_ident-quote_ident_example : read_ident (quote_ident name ++ al) ≡ some (name, al)
read_ident-quote_ident_example = read_ident-quote_ident name al refl

-- A password with a space and a quote in it.
abbrev password : Text
password = b'a' ∷ 32 ∷ single_quote ∷ []

read_value-quote_keyword_value_example :
    read_value (quote_keyword_value password ++ []) ≡ some (password, [])
read_value-quote_keyword_value_example =
    read_value-quote_keyword_value password [] (refl, (refl, (refl, tt))) tt

read_value-escape_single_quoted_example :
    read_value
      (single_quote ∷ (escape_single_quoted (al ++ (single_quote ∷ doc)) ++ (single_quote ∷ [])))
    ≡ some (al, single_quote ∷ (escape_single_quoted doc ++ (single_quote ∷ [])))
read_value-escape_single_quoted_example = read_value-escape_single_quoted al doc (refl, (refl, tt))

new_database-OneMore_example :
    OneMore (λ n. n) 5 (new_database sample_drivers sample_urls none sample_config.database 5)
new_database-OneMore_example =
    new_database-OneMore sample_drivers (λ n. n) sample_pools sample_urls none
      sample_config.database 5

abbrev no_gorm : Gorm ℕ
no_gorm = record {
  with_context = λ h ctx. h;
  transaction = λ h body n. body (suc h) (suc n);
  exec = λ h sql args n. (none, n);
}

abbrev body : Context ℕ → ℕ → ℕ → Option Error × ℕ
body ctx h n = (none, h)

with_tx-nested_example :
    with_tx no_gorm
      (some (record { db = some 3 }))
      quiet
      (λ c t. with_tx no_gorm (some (record { db = some 3 })) c body)
      0
    ≡ with_tx no_gorm (some (record { db = some 3 })) quiet body 0
with_tx-nested_example = with_tx-nested no_gorm (some (record { db = some 3 })) quiet body 0
