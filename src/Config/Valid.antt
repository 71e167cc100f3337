-- ===== src/Config/Valid.antt =====
-- config/config.go: what settings have that Validate accepts.
use aisphere_kit.Base.{
  Text, Bool, true, false, ◌&&◌, List, [], ◌∷◌, none, Error, join_errors, All, IsNil, concat-IsNil,
  is_empty, if_true, ◌≡◌, refl, arith,
}
use aisphere_kit.Casdoor.Certificate.{Crypto}
use aisphere_kit.Config.Types.{Config}
use aisphere_kit.Config.Validate.{
  problem_if, when, database_problems, redis_problems, store_problems, no_selectors, checks,
  certificate_step, validated, validate,
}

nothing_joined : (es : List Error) → join_errors es ≡ none → es ≡ []
nothing_joined [] h = refl
nothing_joined (e ∷ es) h = absurd (ground arith)

no_problem : (b : Bool) (m : Text) → problem_if b m ≡ [] → b ≡ false
no_problem true m h = absurd (ground arith)
no_problem false m h = refl

when_on : (b : Bool) (es : List Error) → when b es ≡ [] → b ≡ true → es ≡ []
when_on b es h on = if_true b es [] [] on h

module _ {W X : Type 0} (crypto : Crypto W X) where
  validated-none :
      (c : Config) (r : List Error × W)
      → (validated crypto c r).0 ≡ none
      → All IsNil (checks crypto c r.0)
  validated-none c (es, w) h = concat-IsNil (checks crypto c es) (nothing_joined _ h)

  module _ (c : Config) (w : W) (valid : (validate crypto c w).0 ≡ none) where
    -- Every check finds nothing.
    checks-IsNil : All IsNil (checks crypto c (certificate_step crypto c w).0)
    unfolding validate
    checks-IsNil = validated-none c (certificate_step crypto c w) valid

    -- Nothing is wrong with the parts whose features are on.
    pub valid_lem :
        (c.features.db ≡ true → IsNil (database_problems c.database))
        × (c.features.cache ≡ true → IsNil (redis_problems c.redis))
        × (c.features.s3 ≡ true → IsNil (store_problems c.objectstore))
        × (c.features.authn ≡ true → IsNil (certificate_step crypto c w).0)
        × (c.features.authz ≡ true → no_selectors c.casdoor ≡ false)
        × (c.features.permission ≡ true
            → is_empty c.casdoor.policy_enforcer && is_empty c.casdoor.enforcer_id ≡ false)
    valid_lem =
        let (
          name,
          (
            http,
            (
              grpc,
              (
                db,
                (
                  cache,
                  (s3, (session, (sharing, (casdoor, (certificate, (authz, (permission, u))))))),
                ),
              ),
            ),
          ),
        ) =
          checks-IsNil in
        (
          when_on _ _ db,
          when_on _ _ cache,
          when_on _ _ s3,
          (λ on. certificate),
          (λ on. no_problem _ _ (when_on _ _ authz on)),
          (λ on. no_problem _ _ (when_on _ _ permission on)),
        )
