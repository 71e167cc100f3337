-- ===== src/Casdoor/Oauth.antt =====
-- casdoor/oauth.go and authn/oauth.go: the URLs of a login and a logout, and the exchange of a code or
-- of a refresh token. net/url, net/http and encoding/json are a parameter of the model.
use aisphere_kit.Base.{
  Text, codes, Bool, ◌||◌, not, List, [], ◌∷◌, ◌++◌, Option, none, some, Result, ok, err, Io, fail,
  Error, plain, wrapped, is_empty, eqb, ltb, leb, ℕ, if◌then◌else◌, ◌==◌, trim_right, trim_space,
}
use Prim.Native.Nat.{◌^◌}
use aisphere_kit.Base.Clock.{ℤ}
use aisphere_kit.Context.{Context}
use aisphere_kit.Casdoor.Settings.{Config}
use aisphere_kit.Casdoor.Certificate.{Adapter}
pub mod Exchange

-- url.Values, without the order of its keys.
abbrev pub Values : Type 0
Values = List (Text × List Text)

unfoldable pub set : Values → Text → Text → Values
set [] k v = (k, v ∷ []) ∷ []
set ((j, vs) ∷ q) k v = let rest = set q k v in if j == k then (j, v ∷ []) ∷ q else (j, vs) ∷ rest

unfoldable pub add : Values → Text → Text → Values
add [] k v = (k, v ∷ []) ∷ []
add ((j, vs) ∷ q) k v =
    let rest = add q k v in if j == k then (j, vs ++ (v ∷ [])) ∷ q else (j, vs) ∷ rest

-- The loops over the extra values of a request.
unfoldable pub add_each : Values → Text → List Text → Values
unfolding add
add_each q k [] = q
add_each q k (v ∷ vs) = add_each (add q k v) k vs

unfoldable pub add_all : Values → Values → Values
unfolding add_each
add_all q [] = q
add_all q ((k, vs) ∷ extra) = add_all (add_each q k vs) extra

abbrev pub set_given : Values → Text → Text → Values
set_given q k v = if is_empty v then q else set q k v

pub record LoginRequest : Type 0 where
  pub redirect_uri : Text
  pub state : Text
  pub scope : Text
  pub prompt : Text
  pub extra : Values

pub record LogoutRequest : Type 0 where
  pub id_token_hint : Text
  pub post_logout_redirect_uri : Text
  pub state : Text
  pub extra : Values

pub record ExchangeCodeRequest : Type 0 where
  pub code : Text
  pub redirect_uri : Text
  pub extra : Values

pub record RefreshTokenRequest : Type 0 where
  pub refresh_token : Text
  pub scope : Text
  pub extra : Values

pub record TokenResponse : Type 0 where
  pub access_token : Text
  pub refresh_token : Text
  pub id_token : Text
  pub token_type : Text
  pub expires_in : ℤ
  pub scope : Text
  pub raw : Text

unfoldable pub default_login_scope : Text
default_login_scope = codes "openid profile email"

-- `U` is the type of a *url.URL, `R` that of a *http.Request and `B` that of the body of a response.
pub record Web (W U R B : Type 0) : Type 0 where
  pub parse_url : Text → Result U
  pub query : U → Values
  pub with_query : U → Values → Text
  pub encode : Values → Text
  pub new_request : Option (Context W) → Text → Text → Result R
  pub send : R → Io W (ℕ × B)
  pub read_all : ℕ → B → Io W Text
  pub close : B → W → W
  pub decode : Text → Result TokenResponse
  pub digits : ℕ → Text

abbrev pub is_slash : ℕ → Bool
is_slash c = eqb c b'/'

abbrev pub at_endpoint : Config → Text → Text
at_endpoint cfg path = trim_right is_slash cfg.endpoint ++ path

abbrev pub login_scope : Config → Text → Text
login_scope cfg scope =
    if not (is_empty (trim_space scope))
    then trim_space scope
    else if not (is_empty (trim_space cfg.default_scope))
    then trim_space cfg.default_scope
    else default_login_scope

abbrev pub login_values : Config → LoginRequest → Values → Values
login_values cfg req q =
    let q₁ =
      set (set (set q (codes "client_id") cfg.client_id) (codes "response_type") (codes "code"))
        (codes "redirect_uri") req.redirect_uri in
    let q₂ = set q₁ (codes "scope") (login_scope cfg req.scope) in
    add_all (set_given (set_given q₂ (codes "state") req.state) (codes "prompt") req.prompt)
      req.extra

abbrev pub logout_values : LogoutRequest → Values → Values
logout_values req q =
    let q₁ =
      if is_empty req.post_logout_redirect_uri
      then q
      else set (set q (codes "post_logout_redirect_uri") req.post_logout_redirect_uri)
          (codes "redirect_uri") req.post_logout_redirect_uri in
    add_all
      (set_given (set_given q₁ (codes "id_token_hint") req.id_token_hint) (codes "state") req.state)
      req.extra

abbrev pub client_form : Config → Text → Values
client_form cfg grant_type =
    set (set (set [] (codes "grant_type") grant_type) (codes "client_id") cfg.client_id)
      (codes "client_secret") cfg.client_secret

abbrev pub code_form : Config → ExchangeCodeRequest → Values
code_form cfg req =
    add_all
      (set (set (client_form cfg (codes "authorization_code")) (codes "code") req.code)
        (codes "redirect_uri") req.redirect_uri)
      req.extra

abbrev pub refresh_form : Config → RefreshTokenRequest → Values
refresh_form cfg req =
    add_all
      (set_given
        (set (client_form cfg (codes "refresh_token")) (codes "refresh_token") req.refresh_token)
        (codes "scope") req.scope)
      req.extra

module _ {W U R B : Type 0} (web : Web W U R B) where
  abbrev built : (Values → Values) → Result U → Result Text
  built values (err e) = err e
  built values (ok u) = ok (web.with_query u (values (web.query u)))

  -- A nil adapter is `none`.
  unfoldable pub login_url : Option Adapter → LoginRequest → Result Text
  unfolding set add_all default_login_scope
  login_url none req = err (plain (codes "casdoor adapter is nil"))
  login_url (some a) req =
      if is_empty (trim_space req.redirect_uri)
      then err (plain (codes "redirect_uri is required"))
      else built (login_values a.cfg req)
          (web.parse_url (at_endpoint a.cfg (codes "/login/oauth/authorize")))

  unfoldable pub logout_url : Option Adapter → LogoutRequest → Result Text
  unfolding set add_all
  logout_url none req = err (plain (codes "casdoor adapter is nil"))
  logout_url (some a) req =
      built (logout_values req) (web.parse_url (at_endpoint a.cfg (codes "/logout")))

  abbrev pub with_raw : Text → TokenResponse → TokenResponse
  with_raw body out = record out {
    raw = body;
    token_type =
        if is_empty out.token_type
        then (if is_empty out.access_token then out.token_type else codes "Bearer")
        else out.token_type;
  }

  abbrev pub checked_token : TokenResponse → Result TokenResponse
  checked_token out =
      if is_empty out.access_token
      then err (plain (codes "casdoor token response missing access_token"))
      else ok out

  abbrev pub decoded : Text → Result TokenResponse → Result TokenResponse
  decoded body (err e) = err (wrapped (codes "decode casdoor token response: ") e [])
  decoded body (ok out) = checked_token (with_raw body out)

  abbrev pub answered : ℕ → Result Text → Result TokenResponse
  answered status (err e) = err e
  answered status (ok body) =
      if ltb status 200 || leb 300 status
      then err (
          plain (
            codes "casdoor token exchange failed: status="
            ++ (web.digits status ++ (codes " body=" ++ trim_space body))))
      else decoded body (web.decode body)

  -- `defer resp.Body.Close()`
  abbrev pub then_close : ℕ → B → Result Text × W → Result TokenResponse × W
  then_close status b (r, w) = (answered status r, web.close b w)

  abbrev pub received : Result (ℕ × B) × W → Result TokenResponse × W
  received (err e, w) = (err e, w)
  received (ok (status, b), w) = then_close status b (web.read_all (2 ^ 20) b w)

  abbrev pub sent : Result R → W → Result TokenResponse × W
  sent (err e) w = (err e, w)
  sent (ok r) w = received (web.send r w)

  unfoldable pub exchange_token : Adapter → Option (Context W) → Values → Io W TokenResponse
  exchange_token a ctx form w =
      sent
        (web.new_request ctx (at_endpoint a.cfg (codes "/api/login/oauth/access_token"))
          (web.encode form))
        w

  unfoldable pub exchange_code :
      Option Adapter → Option (Context W) → ExchangeCodeRequest → Io W TokenResponse
  unfolding set add_all exchange_token
  exchange_code none ctx req w = (err (plain (codes "casdoor adapter is nil")), w)
  exchange_code (some a) ctx req w =
      if is_empty (trim_space req.code)
      then (err (plain (codes "code is required")), w)
      else if is_empty (trim_space req.redirect_uri)
      then (err (plain (codes "redirect_uri is required")), w)
      else exchange_token a ctx (code_form a.cfg req) w

  unfoldable pub refresh_token :
      Option Adapter → Option (Context W) → RefreshTokenRequest → Io W TokenResponse
  unfolding set add_all exchange_token
  refresh_token none ctx req w = (err (plain (codes "casdoor adapter is nil")), w)
  refresh_token (some a) ctx req w =
      if is_empty (trim_space req.refresh_token)
      then (err (plain (codes "refresh_token is required")), w)
      else exchange_token a ctx (refresh_form a.cfg req) w
