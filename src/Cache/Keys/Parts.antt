-- ===== src/Cache/Keys/Parts.antt =====
-- cache/key.go and resource/resource.go: the parts of a name are read back from it.
use aisphere_kit.Base.{
  Text, false, List, [], ◌∷◌, ◌++◌, append_assoc, append-nil, join, is_empty, if◌then◌else◌, ◌≡◌,
  refl, ap, ◌∙◌,
}
use aisphere_kit.Base.Strings.Trim.{trim_of_clean, StartsClean, EndsClean}
use aisphere_kit.Cache.Keys.{is_colon, cleaned, key}

-- strings.Split(s, ":"), behind `word`
unfoldable pub split_from : Text → Text → List Text
split_from word [] = word ∷ []
split_from word (c ∷ s) =
    let after = split_from [] s in
    let inside = split_from (word ++ (c ∷ [])) s in if is_colon c then word ∷ after else inside

-- No colon stands in a text.
abbrev pub NoColon : Text → Type 0
NoColon [] = Unit
NoColon (c ∷ s) = (is_colon c ≡ false) × NoColon s

-- A part that is kept as it is.
abbrev pub IsPart : Text → Type 0
IsPart s = (is_empty s ≡ false) × NoColon s

abbrev pub AllParts : List Text → Type 0
AllParts [] = Unit
AllParts (p ∷ ps) = IsPart p × AllParts ps

starts_clean : (s : Text) → NoColon s → StartsClean is_colon s
starts_clean [] h = tt
starts_clean (c ∷ s) (h, hs) = h

ends_clean : (s : Text) → NoColon s → EndsClean is_colon s
ends_clean [] h = tt
ends_clean (c ∷ []) (h, hs) = h
ends_clean (c ∷ d ∷ s) (h, hs) = ends_clean (d ∷ s) hs

cleaned-parts : (ps : List Text) → AllParts ps → cleaned ps ≡ ps
unfolding cleaned
cleaned-parts [] h = refl
cleaned-parts (p ∷ ps) ((given, plain), hs) =
    rw
      (
        given,
        trim_of_clean is_colon p (starts_clean p plain) (ends_clean p plain),
        cleaned-parts ps hs,
      )
      refl

split_last : (word s : Text) → NoColon s → split_from word s ≡ (word ++ s) ∷ []
unfolding split_from
split_last word [] h = rw append-nil refl
split_last word (c ∷ s) (h, hs) =
    rw h (split_last (word ++ (c ∷ [])) s hs ∙ ap (λ t. t ∷ []) (append_assoc word (c ∷ []) s))

split_first :
    (word s rest : Text)
    → NoColon s
    → split_from word (s ++ (b':' ∷ rest)) ≡ (word ++ s) ∷ split_from [] rest
unfolding split_from
split_first word [] rest h = rw append-nil refl
split_first word (c ∷ s) rest (h, hs) = rw h (
    split_first (word ++ (c ∷ [])) s rest hs
    ∙ ap (λ t. t ∷ split_from [] rest) (append_assoc word (c ∷ []) s))

split-join :
    (p : Text) (ps : List Text) → AllParts (p ∷ ps) → split_from [] (join (p ∷ ps) b':') ≡ p ∷ ps
unfolding join
split-join p [] ((given, plain), hs) = split_last [] p plain
split-join p (q ∷ ps) ((given, plain), hs) =
    split_first [] p (join (q ∷ ps) b':') plain ∙ ap (λ t. p ∷ t) (split-join q ps hs)

-- Splitting a key at its colons gives back the parts that it was made of, when there is one and no part
-- is empty or has a colon in it. So two such lists of parts have different keys.
pub split-key :
    (p : Text) (ps : List Text) → AllParts (p ∷ ps) → split_from [] (key (p ∷ ps)) ≡ p ∷ ps
unfolding key
split-key p ps h = rw (cleaned-parts (p ∷ ps) h) (split-join p ps h)
