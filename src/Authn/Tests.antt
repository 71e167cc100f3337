-- ===== src/Authn/Tests.antt =====
-- authn/authn.go: the theorems at concrete inputs.
use aisphere_kit.Base.{
  Text, codes, false, [], ◌∷◌, ◌++◌, some, ok, ◌≡◌, refl, trim_space, trim, trim_left, trim_right,
  is_space, equal_fold, fold,
}
use aisphere_kit.Authn.{Authenticator, extract_bearer, authenticate_token}
use aisphere_kit.Authn.Bearer.{IsToken, extract_bearer-header}
use aisphere_kit.Authn.Tokens.{Outcome, Outcome-authenticate_token}
use aisphere_kit.Samples.{alice, al, quiet}

abbrev scheme : Text
scheme = b'b' ∷ b'E' ∷ b'a' ∷ b'r' ∷ b'e' ∷ b'r' ∷ []

abbrev spaced_header : Text
spaced_header = b' ' ∷ (scheme ++ (b' ' ∷ b' ' ∷ (al ++ (b' ' ∷ []))))

al-IsToken : IsToken al
unfolding trim_space trim trim_left trim_right is_space
al-IsToken = record { given = refl; trimmed = refl }

extract_bearer-header_example : extract_bearer (scheme ++ (b' ' ∷ al)) ≡ some al
extract_bearer-header_example =
    extract_bearer-header scheme al (unfold equal_fold fold codes in refl) al-IsToken

abbrev authenticator : Authenticator (Unit {0})
authenticator = record { authenticate = λ ctx token w. (ok (some alice), w) }

Outcome-authenticate_token_example :
    Outcome quiet
      (some authenticator)
      al
      false
      tt
      (authenticate_token quiet (some authenticator) al false tt)
      (authenticate_token quiet (some authenticator) al false tt).result
Outcome-authenticate_token_example =
    Outcome-authenticate_token quiet (some authenticator) al false tt
