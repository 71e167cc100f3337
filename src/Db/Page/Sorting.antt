-- ===== src/Db/Page/Sorting.antt =====
-- db/page.go: the bounds of a normalized page, and what a sort with an allowlist can do.
use aisphere_kit.Base.{
  Text, false, List, [], ◌∷◌, Option, none, some, is_empty, trim_space, equal_fold, codes,
  if◌then◌else◌, ◌==◌, eq_sound, ◌≡◌, refl, ◌⊎◌, inl, inr, arith, ltb, ◌≤◌, Bool-cases,
}
use aisphere_kit.Base.Clock.{ℤ, pos, negsuc, not_positive}
use aisphere_kit.Db.Page.{
  PageRequest, normalize_page, default_size, capped, Query, column_of, by_column, apply_sort,
}

-- From 1 to 200.
abbrev pub IsSize : ℤ → Type 0
IsSize (pos n) = (1 ≤ n) × (n ≤ 200)
IsSize (negsuc n) = ⊥

pub record IsPage (req : PageRequest) : Type 0 where
  pub page_known : not_positive req.page ≡ false
  pub size_bounded : IsSize req.page_size

page-positive : (n : ℤ) → not_positive (if not_positive n then pos 1 else n) ≡ false
page-positive n = elim (Bool-cases (not_positive n)) [ inl h ↦ rw h refl | inr h ↦ rw h h ]

capped-IsSize : (n : ℤ) → not_positive n ≡ false → IsSize (capped n)
capped-IsSize (negsuc n) h = absurd (ground arith)
capped-IsSize (pos n) h = elim (Bool-cases (ltb 200 n)) [
  | inl e ↦ rw e (ground arith, ground arith)
  | inr e ↦ rw e (ground arith, ground arith)
]

size-positive : (n : ℤ) → not_positive (default_size n) ≡ false
size-positive n = elim (Bool-cases (not_positive n)) [ inl h ↦ rw h refl | inr h ↦ rw h h ]

-- NormalizePage gives a page that is at least 1 and a page size from 1 to 200, for every request.
pub normalize_page-IsPage : (req : PageRequest) → IsPage (normalize_page req)
unfolding normalize_page
normalize_page-IsPage req = record {
  page_known = page-positive req.page;
  size_bounded = capped-IsSize (default_size req.page_size) (size-positive req.page_size);
}

-- The map has the entry.
abbrev pub HasEntry : Text → Text → List (Text × Text) → Type 0
HasEntry k c [] = ⊥
HasEntry k c ((j, d) ∷ rest) = ((j ≡ k) × (d ≡ c)) ⊎ HasEntry k c rest

column_of-HasEntry :
    (k c : Text) (allowed : List (Text × Text))
    → column_of k allowed ≡ some c
    → HasEntry k c allowed
unfolding column_of
column_of-HasEntry k c [] h = absurd (ground arith)
column_of-HasEntry k c ((j, d) ∷ rest) h = elim (Bool-cases (j == k)) [
  | inl e ↦ let same : some d ≡ some c = rw e at h in inl (eq_sound j k e, cc)
  | inr e ↦ inr (column_of-HasEntry k c rest (rw e at h))
]

module _ {Q : Type 0} (query : Query Q) where
  -- The query is sorted by a column that the map allows for the sort key.
  pub record IsSorted (q r : Q) (req : PageRequest) (allowed : List (Text × Text)) : Type 0 where
    pub column : Text
    pub entry : HasEntry req.sort_by column allowed
    pub given : is_empty (trim_space column) ≡ false
    pub sorted : r ≡ query.order_column column (equal_fold req.sort_order (codes "desc")) q

  by_column-IsSorted :
      (q : Q) (req : PageRequest) (allowed : List (Text × Text)) (o : Option Text)
      → column_of req.sort_by allowed ≡ o
      → (by_column query q req.sort_order o ≡ q)
        ⊎ IsSorted q (by_column query q req.sort_order o) req allowed
  by_column-IsSorted q req allowed none h = inl refl
  by_column-IsSorted q req allowed (some c) h = elim (Bool-cases (is_empty (trim_space c))) [
    | inl e ↦ rw e (inl refl)
    | inr e ↦ rw e (
        inr (record {
          column = c;
          entry = column_of-HasEntry req.sort_by c allowed h;
          given = e;
          sorted = refl;
        }))
  ]

  -- With an allowlist that is not empty, ApplySort leaves the query as it is or sorts it by the column,
  -- not blank, that the list has for the sort key. The text of `Sort` is not used, whatever it is.
  pub apply_sort-IsSorted :
      (q : Q) (req : PageRequest) (entry : Text × Text) (allowed : List (Text × Text))
      → (apply_sort query q req (entry ∷ allowed) ≡ q)
        ⊎ IsSorted q (apply_sort query q req (entry ∷ allowed)) req (entry ∷ allowed)
  unfolding apply_sort
  apply_sort-IsSorted q req entry allowed = by_column-IsSorted q req (entry ∷ allowed) _ refl
