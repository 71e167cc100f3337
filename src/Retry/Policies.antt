-- ===== src/Retry/Policies.antt =====
-- retry/retry.go: the policies that the constructors make.
use aisphere_kit.Base.{
  [], ◌∷◌, Text, false, Option, none, some, is_empty, if◌then◌else◌, ◌≡◌, refl, Bool-cases, inl,
  inr,
}
use aisphere_kit.Base.Clock.{ℤ, pos, not_positive}
use aisphere_kit.Retry.{
  attempts_or_zero, Config, Parsers, new_policy, new_policy_from_strings, default_backoff, Policy,
}

-- At least one attempt, and a wait that is longer than 0.
pub record IsUsable (p : Policy) : Type 0 where
  pub tries : not_positive p.attempts ≡ false
  pub waits : not_positive p.backoff ≡ false

default_backoff-positive : (d : Option ℤ) → not_positive (default_backoff 100_000_000 d) ≡ false
default_backoff-positive none = refl
default_backoff-positive (some d) = elim (Bool-cases (not_positive d)) [
  | inl h ↦ rw h refl
  | inr h ↦ rw h h
]

tries-positive : (n : ℤ) → not_positive (if not_positive n then pos 1 else n) ≡ false
tries-positive n = elim (Bool-cases (not_positive n)) [ inl h ↦ rw h refl | inr h ↦ rw h h ]

waits-positive :
    (s : Text) (d : Option ℤ)
    → not_positive (if is_empty s then pos 100_000_000 else default_backoff 100_000_000 d) ≡ false
waits-positive [] d = refl
waits-positive (c ∷ s) d = default_backoff-positive d

module _ (parsers : Parsers) where
  new_policy-IsUsable : (cfg : Config) → IsUsable (new_policy parsers cfg)
  unfolding new_policy
  new_policy-IsUsable cfg = record {
    tries = tries-positive cfg.attempts;
    waits = waits-positive cfg.backoff (parsers.parse_duration cfg.backoff);
  }

  -- Whatever the two settings say, well formed or not, the policy made of them has at least one
  -- attempt and a positive backoff.
  pub new_policy_from_strings-IsUsable :
      (attempts backoff : Text) → IsUsable (new_policy_from_strings parsers attempts backoff)
  unfolding new_policy_from_strings
  new_policy_from_strings-IsUsable attempts backoff = new_policy-IsUsable (record {
    attempts = if is_empty attempts then pos 0 else attempts_or_zero (parsers.atoi attempts);
    backoff = backoff;
  })
