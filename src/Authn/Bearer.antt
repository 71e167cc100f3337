-- ===== src/Authn/Bearer.antt =====
-- authn/authn.go: what ExtractBearer accepts and returns.
use aisphere_kit.Base.{
  Text, codes, true, false, ◌&&◌, not, [], ◌∷◌, ◌++◌, Option, none, some, is_empty, trim_space,
  is_space, cut, equal_fold, fold, ◌≡◌, refl, arith, Bool-cases, inl, inr, eqb, ℕ, All,
}
use aisphere_kit.Base.Strings.Trim.{
  trim_of_clean, trim_idem, EndsClean-append, EndsClean-of_trim, StartsClean, EndsClean,
}
use aisphere_kit.Authn.{extract_bearer, bearer_of}

trim_space_idem : (s : Text) → trim_space (trim_space s) ≡ trim_space s
unfolding trim_space
trim_space_idem s = trim_idem is_space s

-- A token that has no space around it and is not empty.
pub record IsToken (t : Text) : Type 0 where
  pub given : is_empty t ≡ false
  pub trimmed : trim_space t ≡ t

bearer_of-IsToken : (scheme rest t : Text) → bearer_of (some (scheme, rest)) ≡ some t → IsToken t
bearer_of-IsToken scheme rest t h =
    elim (Bool-cases (equal_fold scheme (codes "Bearer") && not (is_empty (trim_space rest)))) [
      | inl e ↦
          let same : trim_space rest ≡ t = ground arith in
          rw (← same) (record { given = ground arith; trimmed = trim_space_idem rest })
      | inr e ↦ absurd (ground arith)
    ]

bearer_of_sound : (parts : Option (Text × Text)) (t : Text) → bearer_of parts ≡ some t → IsToken t
bearer_of_sound none t h = absurd (ground arith)
bearer_of_sound (some (scheme, rest)) t h = bearer_of-IsToken scheme rest t h

-- What ExtractBearer returns is a token: it is not empty, and no space is left around it.
pub extract_bearer-IsToken : (header t : Text) → extract_bearer header ≡ some t → IsToken t
unfolding extract_bearer
extract_bearer-IsToken header t h = elim (Bool-cases (is_empty (trim_space header))) [
  | inl e ↦ absurd (ground arith)
  | inr e ↦ bearer_of_sound (cut (trim_space header) b' ') t (rw e at h)
]

abbrev LacksSpace : Text → Type 0
LacksSpace = All (λ c. is_space c ≡ false)

-- A character that folds to a letter other than a space is no space.
fold_space : (c d : ℕ) → eqb (fold c) (fold d) ≡ true → is_space d ≡ false → is_space c ≡ false
unfolding fold is_space
fold_space c d h k = ground arith

equal_fold-LacksSpace : (s t : Text) → equal_fold s t ≡ true → LacksSpace t → LacksSpace s
unfolding equal_fold
equal_fold-LacksSpace [] t h k = tt
equal_fold-LacksSpace (c ∷ s) [] h k = absurd (ground arith)
equal_fold-LacksSpace (c ∷ s) (d ∷ t) h k =
    (fold_space c d (ground arith) k.0, equal_fold-LacksSpace s t (ground arith) k.1)

space_differs : (c : ℕ) → is_space c ≡ false → eqb c b' ' ≡ false
unfolding is_space
space_differs c h = ground arith

cut-append : (s t : Text) → LacksSpace s → cut (s ++ (b' ' ∷ t)) b' ' ≡ some (s, t)
unfolding cut
cut-append [] t h = refl
cut-append (c ∷ s) t h = rw (space_differs c h.0) (rw (cut-append s t h.1) refl)

StartsClean-of_LacksSpace :
    (s t : Text) → is_empty s ≡ false → LacksSpace s → StartsClean is_space (s ++ t)
StartsClean-of_LacksSpace [] t n h = absurd (ground arith)
StartsClean-of_LacksSpace (c ∷ s) t n h = h.0

bearer_LacksSpace : LacksSpace (codes "Bearer")
unfolding codes is_space
bearer_LacksSpace = (refl, (refl, (refl, (refl, (refl, (refl, tt))))))

EndsClean-cons :
    (c : ℕ) (t : Text) → is_empty t ≡ false → EndsClean is_space t → EndsClean is_space (c ∷ t)
EndsClean-cons c [] n h = absurd (ground arith)
EndsClean-cons c (d ∷ t) n h = h

equal_fold-nonempty : (s t : Text) → equal_fold s t ≡ true → is_empty t ≡ false → is_empty s ≡ false
unfolding equal_fold
equal_fold-nonempty s [] h n = absurd (ground arith)
equal_fold-nonempty [] (d ∷ t) h n = absurd (ground arith)
equal_fold-nonempty (c ∷ s) (d ∷ t) h n = refl

is_empty-append : (s : Text) (c : ℕ) (t : Text) → is_empty (s ++ (c ∷ t)) ≡ false
is_empty-append [] c t = refl
is_empty-append (d ∷ s) c t = refl

module _ (scheme t : Text) (same : equal_fold scheme (codes "Bearer") ≡ true)
    (token : IsToken t) where
  scheme-nonempty : is_empty scheme ≡ false
  scheme-nonempty = equal_fold-nonempty scheme (codes "Bearer") same (unfold codes in refl)

  header-trimmed : trim_space (scheme ++ (b' ' ∷ t)) ≡ scheme ++ (b' ' ∷ t)
  unfolding trim_space
  header-trimmed =
      trim_of_clean is_space (scheme ++ (b' ' ∷ t))
        (StartsClean-of_LacksSpace scheme _ scheme-nonempty
          (equal_fold-LacksSpace scheme _ same bearer_LacksSpace))
        (EndsClean-append is_space scheme (b' ' ∷ t) refl
          (EndsClean-cons b' ' t token.given (EndsClean-of_trim is_space t token.trimmed)))

  -- Every header made of the scheme, in any mixture of cases, one space and a token is accepted, and
  -- gives the token back.
  pub extract_bearer-header : extract_bearer (scheme ++ (b' ' ∷ t)) ≡ some t
  unfolding extract_bearer
  extract_bearer-header = rw header-trimmed (
      rw (is_empty-append scheme b' ' t) (
        rw (cut-append scheme t (equal_fold-LacksSpace scheme _ same bearer_LacksSpace))
          (rw token.trimmed (rw (same, token.given) refl))))
