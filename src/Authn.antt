-- ===== src/Authn.antt =====
-- authn/authn.go: bearer tokens and the authentication of a request.
use aisphere_kit.Base.{
  Text, codes, Bool, true, false, ◌&&◌, not, List, [], ◌∷◌, Option, none, some, Io, Result, ok, err,
  Error, Sentinel, sentinel, is_empty, if◌then◌else◌, trim_space, cut, equal_fold,
}
use aisphere_kit.Context.{Context}
use aisphere_kit.Principal.Defs.{Principal, is_zero, anonymous}
use aisphere_kit.Principal.Lookup.{new_context}
mod Tests
pub mod Bearer
pub mod Tokens

-- `none` is the nil pointer, which an implementation may return with a nil error.
pub record Authenticator (W : Type 0) : Type 0 where
  pub authenticate : Context W → Text → Io W (Option Principal)

-- The part of ExtractBearer behind strings.SplitN(header, " ", 2).
abbrev pub bearer_of : Option (Text × Text) → Option Text
bearer_of none = none
bearer_of (some (scheme, rest)) =
    if equal_fold scheme (codes "Bearer") && not (is_empty (trim_space rest))
    then some (trim_space rest)
    else none

-- `(token, true)` is `some token`. strings.SplitN with the limit 2 yields two parts where the
-- separator occurs.
unfoldable pub extract_bearer : Text → Option Text
extract_bearer header =
    if is_empty (trim_space header) then none else bearer_of (cut (trim_space header) b' ')

-- The context, and the principal or the error, that AuthenticateToken returns.
pub record Authenticated (W : Type 0) : Type 0 where
  pub context : Context W
  pub result : Result Principal
  pub world : W

-- `if p.Token == "" { p.Token = token }`
abbrev pub with_token : Principal → Text → Principal
with_token p token = if is_empty p.token then record p { token = token } else p

module _ {W : Type 0} where
  abbrev refuse : Context W → Error → W → Authenticated W
  refuse ctx e w = record { context = ctx; result = err e; world = w }

  abbrev admit : Context W → Principal → W → Authenticated W
  admit ctx p w = record { context = new_context ctx (some p); result = ok p; world = w }

  -- What follows the call of the authenticator.
  abbrev pub accept : Context W → Text → Result (Option Principal) × W → Authenticated W
  accept ctx token (err e, w) = refuse ctx e w
  accept ctx token (ok none, w) = refuse ctx (sentinel Sentinel.principal_empty) w
  accept ctx token (ok (some p), w) =
      if is_zero p
      then refuse ctx (sentinel Sentinel.principal_empty) w
      else admit ctx (with_token p token) w

  unfoldable pub authenticate_token :
      Context W → Option (Authenticator W) → Text → Bool → W → Authenticated W
  authenticate_token ctx none token allow_anonymous w =
      if allow_anonymous
      then admit ctx anonymous w
      else refuse ctx (sentinel Sentinel.authn_not_configured) w
  authenticate_token ctx (some a) [] allow_anonymous w =
      if allow_anonymous
      then admit ctx anonymous w
      else refuse ctx (sentinel Sentinel.token_missing) w
  authenticate_token ctx (some a) (c ∷ token) allow_anonymous w =
      accept ctx (c ∷ token) (a.authenticate ctx (c ∷ token) w)
