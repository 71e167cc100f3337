-- ===== src/Db/Dsn/Quoting.antt =====
-- db/postgres.go: what a reader of Postgres makes of the quoted texts.
use aisphere_kit.Base.{
  ℕ, Text, Bool, true, false, ◌||◌, ◌&&◌, [], ◌∷◌, ◌++◌, Option, none, some, eqb, leb, is_empty,
  if◌then◌else◌, ◌≡◌, refl, arith, append_assoc, All, Bool-cases, inl, inr,
}
use aisphere_kit.Base.Search.{contains_any, replace_all}
use aisphere_kit.Db.Dsn.{
  single_quote, double_quote, backslash, needs_quotes, quote_keyword_value, escape_single_quoted,
  quote_ident,
}

abbrev push : ℕ → Option (Text × Text) → Option (Text × Text)
push c none = none
push c (some (name, rest)) = some (c ∷ name, rest)

-- The inside of a quoted identifier of SQL, up to the quote that closes it: two quotes stand for one.
-- `none` where it is not closed.
abbrev pub read_ident_inside : Text → Option (Text × Text)
read_ident_inside [] = none
read_ident_inside (c ∷ []) = if eqb c double_quote then some ([], []) else none
read_ident_inside (c ∷ d ∷ s) =
    let escaped = push double_quote (read_ident_inside s) in
    let more = push c (read_ident_inside (d ∷ s)) in
    if eqb c double_quote then (if eqb d double_quote then escaped else some ([], d ∷ s)) else more

-- A quoted identifier at the head of a text, and what follows it.
abbrev pub read_ident : Text → Option (Text × Text)
read_ident [] = none
read_ident (c ∷ s) = if eqb c double_quote then read_ident_inside s else none

abbrev pub starts_with : ℕ → Text → Bool
starts_with q [] = false
starts_with q (c ∷ s) = eqb c q

read_plain :
    (c : ℕ) (s : Text)
    → eqb c double_quote ≡ false
    → is_empty s ≡ false
    → read_ident_inside (c ∷ s) ≡ push c (read_ident_inside s)
read_plain c [] h n = absurd (ground arith)
read_plain c (d ∷ s) h n = rw h refl

is_empty-append : (s t : Text) → is_empty t ≡ false → is_empty (s ++ t) ≡ false
is_empty-append [] t h = h
is_empty-append (c ∷ s) t h = refl

read_ident-end :
    (rest : Text)
    → starts_with double_quote rest ≡ false
    → read_ident_inside (double_quote ∷ rest) ≡ some ([], rest)
read_ident-end [] h = refl
read_ident-end (d ∷ rest) h = rw h refl

read_ident-replace_all :
    (s rest : Text)
    → starts_with double_quote rest ≡ false
    → read_ident_inside
        (replace_all double_quote (double_quote ∷ double_quote ∷ []) s ++ (double_quote ∷ rest))
      ≡ some (s, rest)
unfolding replace_all
read_ident-replace_all [] rest h = read_ident-end rest h
read_ident-replace_all (c ∷ s) rest h = elim (Bool-cases (eqb c double_quote)) [
  | inl e ↦
      let same : c ≡ double_quote = ground arith in
      rw e (rw (read_ident-replace_all s rest h) (rw same refl))
  | inr e ↦ rw e (
      rw (read_plain c _ e (is_empty-append _ (double_quote ∷ rest) refl))
        (rw (read_ident-replace_all s rest h) refl))
]

-- SQL reads a name quoted by quoteIdent as that name and nothing else, whatever characters it has, in
-- front of every text that does not begin with a double quote.
pub read_ident-quote_ident :
    (s rest : Text)
    → starts_with double_quote rest ≡ false
    → read_ident (quote_ident s ++ rest) ≡ some (s, rest)
unfolding quote_ident
read_ident-quote_ident s rest h =
    rw
      (append_assoc (replace_all double_quote (double_quote ∷ double_quote ∷ []) s)
        (double_quote ∷ []) rest)
      (read_ident-replace_all s rest h)

-- The white space at which a value that is not quoted ends.
abbrev pub is_break : ℕ → Bool
is_break c = eqb c 32 || (leb 9 c && leb c 13)

-- A value of a connection string, after the quote that opens it: up to the next quote, a backslash
-- standing for the character that follows it. `none` where it is not closed.
abbrev pub read_quoted : Text → Option (Text × Text)
read_quoted [] = none
read_quoted (c ∷ []) = if eqb c single_quote then some ([], []) else none
read_quoted (c ∷ d ∷ s) =
    let escaped = push d (read_quoted s) in
    let more = push c (read_quoted (d ∷ s)) in
    if eqb c single_quote then some ([], d ∷ s) else if eqb c backslash then escaped else more

-- A value that is not quoted.
abbrev pub read_bare : Text → Option (Text × Text)
read_bare [] = some ([], [])
read_bare (c ∷ []) =
    if is_break c
    then some ([], c ∷ [])
    else if eqb c backslash
    then some ([], [])
    else some (c ∷ [], [])
read_bare (c ∷ d ∷ s) =
    let escaped = push d (read_bare s) in
    let more = push c (read_bare (d ∷ s)) in
    if is_break c then some ([], c ∷ d ∷ s) else if eqb c backslash then escaped else more

abbrev pub read_value : Text → Option (Text × Text)
read_value [] = some ([], [])
read_value (c ∷ s) = if eqb c single_quote then read_quoted s else read_bare (c ∷ s)

quoted_plain :
    (c : ℕ) (s : Text)
    → eqb c single_quote ≡ false
    → eqb c backslash ≡ false
    → is_empty s ≡ false
    → read_quoted (c ∷ s) ≡ push c (read_quoted s)
quoted_plain c [] h k n = absurd (ground arith)
quoted_plain c (d ∷ s) h k n = rw (h, k) refl

-- What quoteKeywordValue writes for the characters of a value.
abbrev escaped : Text → Text
escaped v =
    replace_all single_quote (backslash ∷ single_quote ∷ [])
      (replace_all backslash (backslash ∷ backslash ∷ []) v)

read_quoted-end : (rest : Text) → read_quoted (single_quote ∷ rest) ≡ some ([], rest)
read_quoted-end [] = refl
read_quoted-end (d ∷ rest) = refl

read_quoted-escaped :
    (v rest : Text) → read_quoted (escaped v ++ (single_quote ∷ rest)) ≡ some (v, rest)
unfolding replace_all
read_quoted-escaped [] rest = read_quoted-end rest
read_quoted-escaped (c ∷ v) rest = elim (Bool-cases (eqb c backslash)) [
  | inl e ↦
      let same : c ≡ backslash = ground arith in
      rw e (rw (read_quoted-escaped v rest) (rw same refl))
  | inr e ↦ rw e (elim (Bool-cases (eqb c single_quote)) [
    | inl q ↦
        let same : c ≡ single_quote = ground arith in
        rw q (rw (read_quoted-escaped v rest) (rw same refl))
    | inr q ↦ rw q (
        rw (quoted_plain c _ q e (is_empty-append _ (single_quote ∷ rest) refl))
          (rw (read_quoted-escaped v rest) refl))
  ])
]

-- None of the characters 10 to 13: line feed, vertical tab, form feed and carriage return.
abbrev pub HasNoBreak : Text → Type 0
HasNoBreak = All (λ c. (leb 10 c && leb c 13) ≡ false)

-- The text is empty or goes on with a space.
abbrev pub IsEnd : Text → Type 0
IsEnd [] = Unit
IsEnd (c ∷ s) = eqb c 32 ≡ true

read_bare-end : (rest : Text) → IsEnd rest → read_bare rest ≡ some ([], rest)
read_bare-end [] h = refl
read_bare-end (c ∷ []) h = rw h refl
read_bare-end (c ∷ d ∷ s) h = rw h refl

bare_plain :
    (c : ℕ) (s : Text)
    → is_break c ≡ false
    → eqb c backslash ≡ false
    → read_bare (c ∷ s) ≡ push c (read_bare s)
bare_plain c [] h k = rw (h, k) refl
bare_plain c (d ∷ s) h k = rw (h, k) refl

read_bare-append :
    (v rest : Text)
    → contains_any needs_quotes v ≡ false
    → HasNoBreak v
    → IsEnd rest
    → read_bare (v ++ rest) ≡ some (v, rest)
unfolding contains_any
read_bare-append [] rest q n h = read_bare-end rest h
read_bare-append (c ∷ v) rest q n h =
    let bare : is_break c ≡ false = ground (arith, n.0) in
    let plain : eqb c backslash ≡ false = ground arith in
    rw (bare_plain c (v ++ rest) bare plain)
      (rw (read_bare-append v rest (ground arith) n.1 h) refl)

read_value-bare :
    (v rest : Text)
    → is_empty v ≡ false
    → contains_any needs_quotes v ≡ false
    → HasNoBreak v
    → IsEnd rest
    → read_value (v ++ rest) ≡ some (v, rest)
unfolding contains_any
read_value-bare [] rest e q n h = absurd (ground arith)
read_value-bare (c ∷ v) rest e q n h =
    let first : eqb c single_quote ≡ false = ground arith in
    rw first (read_bare-append (c ∷ v) rest q n h)

-- A connection string gives the value back that quoteKeywordValue wrote into it, at its end or in front
-- of a space, for every value without line feeds, vertical tabs, form feeds and carriage returns.
pub read_value-quote_keyword_value :
    (v rest : Text)
    → HasNoBreak v
    → IsEnd rest
    → read_value (quote_keyword_value v ++ rest) ≡ some (v, rest)
unfolding quote_keyword_value
read_value-quote_keyword_value v rest n h =
    elim (Bool-cases (is_empty v || contains_any needs_quotes v)) [
      | inl e ↦
          rw e (rw (append_assoc (escaped v) (single_quote ∷ []) rest) (read_quoted-escaped v rest))
      | inr e ↦ rw e (read_value-bare v rest (ground arith) (ground arith) n h)
    ]

-- Neither a quote nor a backslash.
abbrev pub IsPlain : Text → Type 0
IsPlain = All (λ c. (eqb c single_quote || eqb c backslash) ≡ false)

read_quoted-cut :
    (a rest : Text)
    → IsPlain a
    → read_quoted (escape_single_quoted a ++ (single_quote ∷ rest)) ≡ some (a, rest)
unfolding escape_single_quoted replace_all
read_quoted-cut [] rest h = read_quoted-end rest
read_quoted-cut (c ∷ a) rest h =
    let q : eqb c single_quote ≡ false = ground (arith, h.0) in
    let b : eqb c backslash ≡ false = ground (arith, h.0) in
    rw q (
      rw (quoted_plain c _ q b (is_empty-append _ (single_quote ∷ rest) refl))
        (rw (read_quoted-cut a rest h.1) refl))

escape-append :
    (a b : Text) → escape_single_quoted (a ++ b) ≡ escape_single_quoted a ++ escape_single_quoted b
unfolding escape_single_quoted replace_all
escape-append [] b = refl
escape-append (c ∷ a) b = rw (escape-append a b) (rw append_assoc refl)

-- The quotes that escapeSingleQuoted doubles are not escaped for a reader of connection strings: in
-- every text with a quote after a part without quotes and backslashes, the value ends at that quote,
-- and the rest of the text is read as what follows the value.
pub read_value-escape_single_quoted :
    (a b : Text)
    → IsPlain a
    → read_value
        (single_quote ∷ (escape_single_quoted (a ++ (single_quote ∷ b)) ++ (single_quote ∷ [])))
      ≡ some (a, single_quote ∷ (escape_single_quoted b ++ (single_quote ∷ [])))
read_value-escape_single_quoted a b h = rw (escape-append a (single_quote ∷ b)) (
    rw
      (append_assoc (escape_single_quoted a) (escape_single_quoted (single_quote ∷ b))
        (single_quote ∷ []))
      (unfold escape_single_quoted replace_all in
        read_quoted-cut a (single_quote ∷ (escape_single_quoted b ++ (single_quote ∷ []))) h))
