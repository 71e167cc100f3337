-- ===== src/Session/Tests.antt =====
-- session/session.go: the theorems at concrete inputs.
use aisphere_kit.Base.{
  List, ℕ, arith, Text, true, [], ◌∷◌, ◌++◌, Option, none, some, ok, ◌≡◌, ◌≢◌, refl, ◌==◌,
  trim_space, trim, trim_left, trim_right, is_space, join, codes,
}
use aisphere_kit.Base.Clock.{pos}
use aisphere_kit.Cache.Redis.{Redis, Store, hex}
use aisphere_kit.Session.{
  Config, Platform, new_state, verify_state, revoke_token, is_revoked, state_key, key, trim_colon,
  blacklist_key, parse_duration_or,
}
use aisphere_kit.Session.States.{manager, verify_state-once, verify_state-new_state, IsDrawn}
use aisphere_kit.Session.Revocations.{is_revoked-revoke_token}
use aisphere_kit.Cache.Sample.{sample_redis, sample_store}
use aisphere_kit.Samples.{al, doc, read}

abbrev config : Config
config = record { key_prefix = doc; state_ttl = []; blacklist_prefix = read }

-- A hash that leaves the token as it is.
abbrev platform : Platform
platform = record { hash_token = λ s. s; parse_duration = λ s. none }

abbrev state : Text
state = b'0' ∷ b'7' ∷ []

-- The key doc:oauth_state:07
abbrev state_key_07 : Text
state_key_07 =
    doc
    ++ (b':' ∷ b'o' ∷ b'a' ∷ b'u' ∷ b't' ∷ b'h' ∷ b'_' ∷ b's' ∷ b't' ∷ b'a' ∷ b't' ∷ b'e' ∷ b':'
        ∷ state)

abbrev states : Redis (Option Text)
states = sample_redis state_key_07

-- The key read:al
abbrev tokens : Redis (Option Text)
tokens = sample_redis (read ++ (b':' ∷ al))

created : new_state platform (manager states config) al none ≡ (ok state, some al)
unfolding new_state state_key key trim_colon hex codes join ◌==◌ parse_duration_or
created = refl

verified : verify_state (manager states config) state (some al) ≡ (ok al, none)
unfolding verify_state state_key key trim_colon codes join ◌==◌ trim_space trim trim_left trim_right
    is_space
verified = refl

verify_state-once_example :
    (Store.value (sample_store state_key_07) (some al) (state_key config state) ≡ some al)
    × ((u : Text) (w : Option Text) → verify_state (manager states config) state none ≢ (ok u, w))
verify_state-once_example =
    verify_state-once platform states (sample_store state_key_07) config state al (some al) none
      verified

taken : states.get_del (state_key config state) (some al) ≡ (ok (some al), none)
unfolding state_key key trim_colon codes join ◌==◌
taken = refl

drawn : (v v' : Option Text) (bytes : List ℕ) → states.random 24 v ≡ (ok bytes, v') → IsDrawn bytes
drawn v v' [] h = absurd (ground arith)
drawn v v' (b ∷ bs) h = ground arith

verify_state-new_state_example :
    verify_state (manager states config) state (some al) ≡ (ok al, none)
verify_state-new_state_example =
    verify_state-new_state platform states (sample_store state_key_07) config drawn al state none
      (some al) none (some al) created taken

is_revoked-revoke_token_example : true ≡ true
is_revoked-revoke_token_example =
    is_revoked-revoke_token platform tokens (sample_store (read ++ (b':' ∷ al))) config al (pos 9)
      true none (some (b'1' ∷ [])) (some (b'1' ∷ []))
      (unfold trim_space trim trim_left trim_right is_space in refl)
      (unfold revoke_token blacklist_key trim_colon codes ◌==◌ trim_space trim trim_left trim_right
          is_space in
        refl)
      (unfold is_revoked blacklist_key trim_colon codes ◌==◌ trim_space trim trim_left trim_right
          is_space in
        refl)
