-- ===== src/Authn/Tokens.antt =====
-- authn/authn.go: what AuthenticateToken puts into the context.
use aisphere_kit.Base.{
  ℕ, ◌∙◌, Text, codes, Bool, true, false, [], ◌∷◌, Option, none, some, Result, ok, err, is_empty,
  ◌≡◌, refl, arith, Bool-cases, inl, inr, ◌⊎◌,
}
use aisphere_kit.Context.{Context}
use aisphere_kit.Principal.Defs.{Principal, is_zero, anonymous}
use aisphere_kit.Principal.Lookup.{new_context, require_from_context}
use aisphere_kit.Authn.{Authenticator, Authenticated, authenticate_token, with_token, accept}

is_zero-with_token : (p : Principal) (token : Text) → is_zero (with_token p token) ≡ is_zero p
unfolding is_zero
is_zero-with_token p token = ground arith

token-with_token :
    (p : Principal) (c : ℕ) (token : Text) → is_empty (with_token p (c ∷ token)).token ≡ false
token-with_token p c token = elim (Bool-cases (is_empty p.token)) [
  | inl e ↦ rw e refl
  | inr e ↦ rw e e
]

module _ {W : Type 0} where
  -- The principal was made by the authenticator from the token, and carries a token.
  pub record IsGenuine (ctx : Context W) (a : Option (Authenticator W)) (token : Text) (w : W)
      (p : Principal) : Type 0 where
    pub authenticator : Authenticator W
    pub made : Principal
    pub world : W
    pub configured : a ≡ some authenticator
    pub given : is_empty token ≡ false
    pub answered : authenticator.authenticate ctx token w ≡ (ok (some made), world)
    pub result : p ≡ with_token made token
    pub carries_token : is_empty p.token ≡ false

  -- The outcome of an authentication.
  abbrev pub Outcome :
      Context W
      → Option (Authenticator W)
      → Text
      → Bool
      → W
      → Authenticated W
      → Result Principal
      → Type 0
  Outcome ctx a token allow w r (err e) = r.context ≡ ctx
  Outcome ctx a token allow w r (ok p) =
      (require_from_context (some r.context) ≡ ok p)
      × (((allow ≡ true) × (p ≡ anonymous)) ⊎ IsGenuine ctx a token w p)

  require_from_context-new :
      (ctx : Context W) (p : Principal)
      → is_zero p ≡ false
      → require_from_context (some (new_context ctx (some p))) ≡ ok p
  unfolding require_from_context new_context
  require_from_context-new ctx p z = rw z refl

  module _ (ctx : Context W) (a : Authenticator W) (c : ℕ) (token : Text) (allow : Bool)
      (w : W) where
    Outcome-known :
        (p : Principal) (v : W) (zero : Bool)
        → a.authenticate ctx (c ∷ token) w ≡ (ok (some p), v)
        → is_zero p ≡ zero
        → Outcome ctx
            (some a)
            (c ∷ token)
            allow
            w
            (accept ctx (c ∷ token) (ok (some p), v))
            (accept ctx (c ∷ token) (ok (some p), v)).result
    Outcome-known p v true answered z = rw z refl
    Outcome-known p v false answered z = rw z (
      require_from_context-new ctx (with_token p (c ∷ token))
          (is_zero-with_token p (c ∷ token) ∙ z),
      inr (record {
        authenticator = a;
        made = p;
        world = v;
        configured = refl;
        given = refl;
        answered = answered;
        result = refl;
        carries_token = token-with_token p c token;
      }),
    )

    Outcome-accept :
        (r : Result (Option Principal) × W)
        → a.authenticate ctx (c ∷ token) w ≡ r
        → Outcome ctx
            (some a)
            (c ∷ token)
            allow
            w
            (accept ctx (c ∷ token) r)
            (accept ctx (c ∷ token) r).result
    Outcome-accept (err e, v) answered = refl
    Outcome-accept (ok none, v) answered = refl
    Outcome-accept (ok (some p), v) answered = Outcome-known p v _ answered refl

  -- A failed authentication leaves the context alone. After a successful one, the principal that is
  -- returned is the one that RequireFromContext finds in the returned context; it is the anonymous
  -- principal, and anonymous access is allowed, or it is what the authenticator made of a token that
  -- is not empty, and it carries a token.
  pub Outcome-authenticate_token :
      (ctx : Context W) (a : Option (Authenticator W)) (token : Text) (allow : Bool) (w : W)
      → Outcome ctx a token allow w
          (authenticate_token ctx a token allow w)
          (authenticate_token ctx a token allow w).result
  unfolding authenticate_token
  Outcome-authenticate_token ctx none token true w = (
    require_from_context-new ctx anonymous (unfold is_zero anonymous codes in refl),
    inl (refl, refl),
  )
  Outcome-authenticate_token ctx none token false w = refl
  Outcome-authenticate_token ctx (some a) [] true w = (
    require_from_context-new ctx anonymous (unfold is_zero anonymous codes in refl),
    inl (refl, refl),
  )
  Outcome-authenticate_token ctx (some a) [] false w = refl
  Outcome-authenticate_token ctx (some a) (c ∷ token) allow w =
      Outcome-accept ctx a c token allow w _ refl
