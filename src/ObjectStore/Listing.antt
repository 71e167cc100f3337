-- ===== src/ObjectStore/Listing.antt =====
-- objectstore/minio.go, ListObjects: what a listing answers.
use aisphere_kit.Base.{
  Text, true, false, List, [], ◌∷◌, ◌++◌, append_assoc, append-nil, Result, ok, err, ◌≡◌, refl, ◌∙◌,
  ap, arith, ℕ, zero, suc, ◌+◌, ◌<◌, length, length-append,
}
use aisphere_kit.Base.Clock.{ℤ, pos, negsuc}
use aisphere_kit.ObjectStore.{Stat, ObjectInfo, info_of, is_full, collect}

abbrev pub take : {A : Type 0} → ℕ → List A → List A
take zero es = []
take (suc n) [] = []
take (suc n) (x ∷ es) = x ∷ take n es

-- The entries that a limit lets through: all of them, when it is not positive.
abbrev pub let_through : {A : Type 0} → ℤ → List A → List A
let_through (pos zero) es = es
let_through (pos (suc n)) es = take (suc n) es
let_through (negsuc n) es = es

abbrev in_front : ObjectInfo → Result (List ObjectInfo) → Result (List ObjectInfo)
in_front o (ok os) = ok (o ∷ os)
in_front o (err e) = err e

-- The objects that the entries are, or the first error among them.
abbrev pub infos : Text → List (Result Stat) → Result (List ObjectInfo)
infos bucket [] = ok []
infos bucket (err e ∷ es) = err e
infos bucket (ok s ∷ es) = in_front (info_of bucket s) (infos bucket es)

abbrev behind : List ObjectInfo → Result (List ObjectInfo) → Result (List ObjectInfo)
behind items (ok os) = ok (items ++ os)
behind items (err e) = err e

behind-in_front :
    (items : List ObjectInfo) (o : ObjectInfo) (r : Result (List ObjectInfo))
    → behind (items ++ (o ∷ [])) r ≡ behind items (in_front o r)
behind-in_front items o (ok os) = ap ok (append_assoc items (o ∷ []) os)
behind-in_front items o (err e) = refl

behind-nil : (r : Result (List ObjectInfo)) → behind [] r ≡ r
behind-nil (ok os) = refl
behind-nil (err e) = refl

-- The loop without a limit.
unlimited :
    (bucket : Text) (limit : ℤ) (items : List ObjectInfo) (es : List (Result Stat))
    → ((n : ℕ) → is_full limit n ≡ false)
    → collect bucket limit items es ≡ behind items (infos bucket es)
unfolding collect
unlimited bucket limit items [] h = rw append-nil refl
unlimited bucket limit items (err e ∷ es) h = refl
unlimited bucket limit items (ok s ∷ es) h =
    rw (h (length (items ++ (info_of bucket s ∷ []))))
      (unlimited bucket limit (items ++ (info_of bucket s ∷ [])) es h ∙ behind-in_front items _ _)

full : (m n : ℕ) → n ≡ m → 0 < n → is_full (pos m) n ≡ true
full m n e p = ground arith

not_full : (m n : ℕ) → n < m → is_full (pos m) n ≡ false
not_full m n p = ground arith

-- The loop with a limit that lets more entries through.
limited :
    (bucket : Text) (m k : ℕ) (items : List ObjectInfo) (es : List (Result Stat))
    → length items + suc k ≡ m
    → collect bucket (pos m) items es ≡ behind items (infos bucket (take (suc k) es))
unfolding collect
limited bucket m k items [] h = rw append-nil refl
limited bucket m k items (err e ∷ es) h = refl
limited bucket m zero items (ok s ∷ es) h =
    let o = info_of bucket s in
    rw
      (full m (length (items ++ (o ∷ []))) (omega (arith, h, length-append items (o ∷ [])))
        (omega (arith, length-append items (o ∷ []))))
      refl
limited bucket m (suc k) items (ok s ∷ es) h =
    let o = info_of bucket s in
    rw (not_full m (length (items ++ (o ∷ []))) (omega (arith, h, length-append items (o ∷ [])))) (
      limited bucket m k (items ++ (o ∷ [])) es (omega (arith, h, length-append items (o ∷ [])))
      ∙ behind-in_front items o (infos bucket (take (suc k) es)))

-- The loop of ListObjects answers the objects of the entries that its limit lets through, in their
-- order, or the first error among those: all entries when the limit is not positive, and otherwise as
-- many as the limit says. An error behind the limit is not reported.
pub collect_lem :
    (bucket : Text) (limit : ℤ) (es : List (Result Stat))
    → collect bucket limit [] es ≡ infos bucket (let_through limit es)
collect_lem bucket (pos zero) es = unlimited bucket (pos 0) [] es (λ n. ground arith) ∙ behind-nil _
collect_lem bucket (pos (suc n)) es = limited bucket (suc n) n [] es (omega arith) ∙ behind-nil _
collect_lem bucket (negsuc n) es = unlimited bucket (negsuc n) [] es (λ n. refl) ∙ behind-nil _
