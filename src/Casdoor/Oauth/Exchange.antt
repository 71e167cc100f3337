-- ===== src/Casdoor/Oauth/Exchange.antt =====
-- casdoor/oauth.go: what a token exchange sends and what it answers.
use aisphere_kit.Base.{
  Text, codes, false, List, [], ◌∷◌, ◌++◌, Option, none, some, Result, ok, err, is_empty,
  if◌then◌else◌, if_cases, ltb, leb, ◌||◌, ℕ, ◌==◌, Bool-cases, inl, inr, ◌≡◌, refl, arith,
}
use Prim.Native.Nat.{◌^◌}
use aisphere_kit.Context.{Context}
use aisphere_kit.Casdoor.Settings.{Config}
use aisphere_kit.Casdoor.Certificate.{Adapter}
use aisphere_kit.Casdoor.Oauth.{
  Values, set, add, add_each, add_all, Web, TokenResponse, ExchangeCodeRequest, client_form,
  code_form, with_raw, decoded, answered, then_close, received, sent, exchange_token,
}

abbrev first : List Text → Option Text
first [] = none
first (v ∷ vs) = some v

-- The method Get of url.Values: the first value of a key.
unfoldable pub get : Values → Text → Option Text
get [] k = none
get ((j, vs) ∷ q) k = let rest = get q k in if j == k then first vs else rest

first-append : (vs : List Text) (v x : Text) → first vs ≡ some x → first (vs ++ (v ∷ [])) ≡ some x
first-append [] v x h = absurd (ground arith)
first-append (u ∷ vs) v x h = h

get-add : (q : Values) (k v i x : Text) → get q i ≡ some x → get (add q k v) i ≡ some x
unfolding get add
get-add [] k v i x h = absurd (ground arith)
get-add ((j, vs) ∷ q) k v i x h = elim (Bool-cases (j == k)) [
  | inl e ↦ elim (Bool-cases (j == i)) [
    | inl f ↦ let g : first vs ≡ some x = rw f at h in rw (e, f) (first-append vs v x g)
    | inr f ↦ let g : get q i ≡ some x = rw f at h in rw (e, f) g
  ]
  | inr e ↦ elim (Bool-cases (j == i)) [
    | inl f ↦ let g : first vs ≡ some x = rw f at h in rw (e, f) g
    | inr f ↦ let g : get q i ≡ some x = rw f at h in rw (e, f) (get-add q k v i x g)
  ]
]

get-add_each :
    (q : Values) (k : Text) (vs : List Text) (i x : Text)
    → get q i ≡ some x
    → get (add_each q k vs) i ≡ some x
unfolding add_each
get-add_each q k [] i x h = h
get-add_each q k (v ∷ vs) i x h = get-add_each (add q k v) k vs i x (get-add q k v i x h)

-- What is set stays, whatever the extra values of a request are.
pub get-add_all :
    (q extra : Values) (i x : Text) → get q i ≡ some x → get (add_all q extra) i ≡ some x
unfolding add_all
get-add_all q [] i x h = h
get-add_all q ((k, vs) ∷ extra) i x h =
    get-add_all (add_each q k vs) extra i x (get-add_each q k vs i x h)

-- The credentials and the grant of a form.
abbrev pub Grants : Config → Text → Values → Type 0
Grants cfg grant_type form =
    (get form (codes "grant_type") ≡ some grant_type)
    × (get form (codes "client_id") ≡ some cfg.client_id)
    × (get form (codes "client_secret") ≡ some cfg.client_secret)

-- The form of a code exchange has the credentials of the adapter, its grant, and the code and the
-- redirect URI of the request, whatever the extra values of the request are: those only come behind.
pub code_form_lem :
    (cfg : Config) (req : ExchangeCodeRequest)
    → Grants cfg (codes "authorization_code") (code_form cfg req)
      × (get (code_form cfg req) (codes "code") ≡ some req.code)
      × (get (code_form cfg req) (codes "redirect_uri") ≡ some req.redirect_uri)
unfolding get set codes ◌==◌
code_form_lem cfg req =
    let keep =
      get-add_all
        (set (set (client_form cfg (codes "authorization_code")) (codes "code") req.code)
          (codes "redirect_uri") req.redirect_uri)
        req.extra in
    ((keep _ _ refl, keep _ _ refl, keep _ _ refl), keep _ _ refl, keep _ _ refl)

-- A response that an exchange may answer.
abbrev pub IsUsable : Result TokenResponse → Type 0
IsUsable (err e) = Unit
IsUsable (ok out) = (is_empty out.access_token ≡ false) × (is_empty out.token_type ≡ false)

module _ {W U R B : Type 0} (web : Web W U R B) where
  typed :
      (t a : Text)
      → is_empty a ≡ false
      → is_empty (if is_empty t then (if is_empty a then t else codes "Bearer") else t) ≡ false
  unfolding codes
  typed [] a h = rw h refl
  typed (c ∷ t) a h = refl

  decoded-IsUsable : (body : Text) (r : Result TokenResponse) → IsUsable (decoded web body r)
  decoded-IsUsable body (err e) = tt
  decoded-IsUsable body (ok out) =
      if_cases IsUsable (is_empty out.access_token) (err _) (ok (with_raw web body out)) (λ e. tt)
        (λ e. (e, typed out.token_type out.access_token e))

  answered-IsUsable : (status : ℕ) (r : Result Text) → IsUsable (answered web status r)
  answered-IsUsable status (err e) = tt
  answered-IsUsable status (ok body) =
      if_cases IsUsable (ltb status 200 || leb 300 status) (err _) _ (λ e. tt)
        (λ e. decoded-IsUsable body (web.decode body))

  then_close-IsUsable :
      (status : ℕ) (b : B) (r : Result Text × W) → IsUsable (then_close web status b r).0
  then_close-IsUsable status b (r, w) = answered-IsUsable status r

  received-IsUsable : (r : Result (ℕ × B) × W) → IsUsable (received web r).0
  received-IsUsable (err e, w) = tt
  received-IsUsable (ok (status, b), w) = then_close-IsUsable status b (web.read_all (2 ^ 20) b w)

  sent-IsUsable : (r : Result R) (w : W) → IsUsable (sent web r w).0
  sent-IsUsable (err e) w = tt
  sent-IsUsable (ok r) w = received-IsUsable (web.send r w)

  -- A token exchange answers an error, or a response with an access token and a token type.
  pub exchange_token-IsUsable :
      (a : Adapter) (ctx : Option (Context W)) (form : Values) (w : W)
      → IsUsable (exchange_token web a ctx form w).0
  unfolding exchange_token
  exchange_token-IsUsable a ctx form w = sent-IsUsable _ w
