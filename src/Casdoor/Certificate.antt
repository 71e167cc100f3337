-- ===== src/Casdoor/Certificate.antt =====
-- casdoor/config.go and the constructors of casdoor/adapter.go: the public certificate that tokens are
-- verified with. PEM and X.509 are a parameter of the model.
use aisphere_kit.Base.{
  Text, codes, Bool, true, false, ◌&&◌, ◌||◌, not, [], ◌∷◌, ◌++◌, Option, none, some, Result, ok,
  err, Io, pure, lift, ◌>>=◌, plain, wrapped, is_empty, trim_space, if◌then◌else◌, ◌==◌, ℕ, ◌*◌,
}
use aisphere_kit.Base.Search.{quoted, contains_text, replace_all, replace_pair}
use aisphere_kit.Base.Clock.{ℤ, pos, not_positive, second}
use aisphere_kit.Casdoor.Settings.{Config}

abbrev pub cr : ℕ
cr = 13

abbrev pub lf : ℕ
lf = 10

abbrev pub backslash : ℕ
backslash = 92

-- The two characters that a flattened newline is written with.
abbrev pub flat_newline : Text
flat_newline = backslash ∷ b'n' ∷ []

abbrev pub is_flat : Text → Bool
is_flat s = contains_text s flat_newline && not (contains_text s (lf ∷ []))

abbrev pub unflatten : Text → Text
unflatten s = if is_flat s then replace_pair backslash b'n' (lf ∷ []) s else s

abbrev pub unix_newlines : Text → Text
unix_newlines s = replace_all cr (lf ∷ []) (replace_pair cr lf (lf ∷ []) s)

unfoldable pub normalize_pem_text : Text → Text
normalize_pem_text s =
    let t = trim_space s in if is_empty t then [] else trim_space (unflatten (unix_newlines t))

-- A block of pem.Decode; `X` is the type of its bytes.
pub record Block (X : Type 0) : Type 0 where
  pub type : Text
  pub bytes : X

-- encoding/pem, crypto/x509 and os. A parser answers whether the key that it finds is an RSA key.
pub record Crypto (W X : Type 0) : Type 0 where
  pub decode : Text → Option (Block X) × Text
  pub parse_certificate : X → Result Bool
  pub parse_pkix_public_key : X → Result Bool
  pub parse_pkcs1_public_key : X → Result (Unit {0})
  pub read_file : Text → Io W Text
  pub parse_duration : Text → Result ℤ

abbrev pub checked_rsa : Text → Text → Result Bool → Result (Unit {0})
checked_rsa before after (err e) = err (wrapped before e [])
checked_rsa before after (ok true) = ok tt
checked_rsa before after (ok false) = err (plain after)

abbrev pub checked_parse : Text → Result (Unit {0}) → Result (Unit {0})
checked_parse before (err e) = err (wrapped before e [])
checked_parse before (ok u) = ok tt

abbrev pub is_private : Text → Bool
is_private t =
    t == codes "PRIVATE KEY" || t == codes "RSA PRIVATE KEY" || t == codes "EC PRIVATE KEY"

-- Adapter, without its client of the SDK, which is made of the same settings, its retry policy, which
-- is retry.NewPolicy of them, its logger, its metrics and its HTTP client, which has this timeout.
pub record Adapter : Type 0 where
  pub cfg : Config
  pub timeout : ℤ

module _ {W X : Type 0} (crypto : Crypto W X) where
  abbrev pub validate_block : Block X → Result (Unit {0})
  validate_block block =
      if block.type == codes "CERTIFICATE"
      then checked_rsa (codes "parse casdoor.certificate x509 certificate: ")
          (codes
            "casdoor.certificate certificate public key must be RSA for RS256 JWT verification")
          (crypto.parse_certificate block.bytes)
      else if block.type == codes "PUBLIC KEY"
      then checked_rsa (codes "parse casdoor.certificate public key: ")
          (codes "casdoor.certificate public key must be RSA for RS256 JWT verification")
          (crypto.parse_pkix_public_key block.bytes)
      else if block.type == codes "RSA PUBLIC KEY"
      then checked_parse (codes "parse casdoor.certificate rsa public key: ")
          (crypto.parse_pkcs1_public_key block.bytes)
      else if is_private block.type
      then err (
          plain (
            codes "casdoor.certificate must be a public certificate/public key, not a private key"))
      else err (
          plain (
            codes "casdoor.certificate unsupported PEM block type "
            ++ (quoted block.type
                ++ codes "; expected CERTIFICATE, PUBLIC KEY, or RSA PUBLIC KEY")))

  abbrev pub validate_decoded : Option (Block X) × Text → Result (Unit {0})
  validate_decoded (none, rest) =
      err (plain (codes "casdoor.certificate must be PEM encoded public certificate or public key"))
  validate_decoded (some block, rest) =
      if not (is_empty (trim_space rest))
      then err (plain (codes "casdoor.certificate must contain exactly one PEM block"))
      else validate_block block

  unfoldable pub validate_jwt_public_certificate : Text → Result (Unit {0})
  unfolding normalize_pem_text
  validate_jwt_public_certificate pem_text =
      let cert = normalize_pem_text pem_text in
      if is_empty cert
      then err (plain (codes "casdoor.certificate is empty"))
      else validate_decoded (crypto.decode cert)

  abbrev pub file_text : Text → Result Text × W → Result Text × W
  file_text file (ok b, w) = (ok (trim_space b), w)
  file_text file (err e, w) = (
    err (wrapped (codes "read casdoor.certificate_file " ++ (quoted file ++ codes ": ")) e []),
    w,
  )

  -- The certificate itself, or what its file says.
  abbrev pub certificate_text : Config → Io W Text
  certificate_text cfg w =
      if is_empty (trim_space cfg.certificate) && not (is_empty (trim_space cfg.certificate_file))
      then file_text cfg.certificate_file (crypto.read_file (trim_space cfg.certificate_file) w)
      else (ok (trim_space cfg.certificate), w)

  abbrev validated : Text → Result (Unit {0}) → Result Text
  validated cert (ok u) = ok cert
  validated cert (err e) = err e

  abbrev pub usable : Text → Result Text
  usable cert =
      if is_empty cert
      then err (
          plain (
            codes
              "casdoor.certificate or casdoor.certificate_file is required for authn JWT verification; copy the public certificate/public key from the Casdoor Cert page"))
      else validated cert (validate_jwt_public_certificate cert)

  unfoldable pub normalized_certificate : Config → Io W Text
  unfolding normalize_pem_text validate_jwt_public_certificate
  normalized_certificate cfg =
      certificate_text cfg >>= (λ text. lift (usable (normalize_pem_text text)))

  abbrev timeout_of : Result ℤ → ℤ
  timeout_of (ok d) = if not_positive d then pos (10 * second) else d
  timeout_of (err e) = pos (10 * second)

  abbrev pub http_timeout : Config → ℤ
  http_timeout cfg =
      if is_empty cfg.http_timeout
      then pos (10 * second)
      else timeout_of (crypto.parse_duration cfg.http_timeout)

  abbrev pub made : Config → Text → Adapter
  made cfg cert = record { cfg = record cfg { certificate = cert }; timeout = http_timeout cfg }

  abbrev pub wants_certificate : Config → Bool → Bool → Bool
  wants_certificate cfg require_certificate validate_provided =
      require_certificate
      || (validate_provided
          && (not (is_empty (normalize_pem_text cfg.certificate))
              || not (is_empty (trim_space cfg.certificate_file))))

  abbrev pub certified : Config → Io W Adapter
  certified cfg = normalized_certificate cfg >>= (λ cert. pure (made cfg cert))

  unfoldable pub new_adapter : Config → Bool → Bool → Io W Adapter
  unfolding normalize_pem_text normalized_certificate
  new_adapter cfg require_certificate validate_provided w =
      if wants_certificate cfg require_certificate validate_provided
      then certified cfg w
      else (ok (made cfg (normalize_pem_text cfg.certificate)), w)

  -- New, which ignores the error, and NewChecked
  abbrev pub new_unchecked : Config → Io W Adapter
  new_unchecked cfg = new_adapter cfg false false

  unfoldable pub new_checked : Config → Io W Adapter
  unfolding new_adapter
  new_checked cfg = new_adapter cfg true true
