-- ===== src/Db/Page.antt =====
-- db/page.go: NormalizePage and ApplySort.
use aisphere_kit.Base.{
  Text, codes, Bool, List, [], ◌∷◌, Option, none, some, is_empty, trim_space, equal_fold,
  if◌then◌else◌, ◌==◌, ltb, false,
}
use aisphere_kit.Base.Clock.{ℤ, pos, negsuc, not_positive}
pub mod Sorting

-- PageRequest, whose numbers are of type int.
pub record PageRequest : Type 0 where
  pub page : ℤ
  pub page_size : ℤ
  pub sort : Text
  pub sort_by : Text
  pub sort_order : Text

abbrev exceeds_200 : ℤ → Bool
exceeds_200 (pos n) = ltb 200 n
exceeds_200 (negsuc n) = false

abbrev pub default_size : ℤ → ℤ
default_size n = if not_positive n then pos 20 else n

abbrev pub capped : ℤ → ℤ
capped n = if exceeds_200 n then pos 200 else n

unfoldable pub normalize_page : PageRequest → PageRequest
normalize_page req = record req {
  page = if not_positive req.page then pos 1 else req.page;
  page_size = capped (default_size req.page_size);
}

-- What ApplySort uses of a *gorm.DB: the order by a quoted column, descending or not, and the order
-- by a text that goes into the query as it is.
pub record Query (Q : Type 0) : Type 0 where
  pub order_column : Text → Bool → Q → Q
  pub order_text : Text → Q → Q

-- The look-up in the map of the allowed sort keys.
unfoldable pub column_of : Text → List (Text × Text) → Option Text
column_of k [] = none
column_of k ((j, c) ∷ rest) = let found = column_of k rest in if j == k then some c else found

module _ {Q : Type 0} (query : Query Q) where
  abbrev pub by_column : Q → Text → Option Text → Q
  by_column q order none = q
  by_column q order (some column) =
      if is_empty (trim_space column)
      then q
      else query.order_column column (equal_fold order (codes "desc")) q

  unfoldable pub apply_sort : Q → PageRequest → List (Text × Text) → Q
  apply_sort q req [] = if is_empty req.sort then q else query.order_text req.sort q
  apply_sort q req (a ∷ allowed) = by_column q req.sort_order (column_of req.sort_by (a ∷ allowed))
