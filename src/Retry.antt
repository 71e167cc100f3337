-- ===== src/Retry.antt =====
-- retry/retry.go: the retry policy and the retry loop.
use aisphere_kit.Base.{
  Text, Bool, true, false, Option, none, some, Result, ok, err, Error, is_empty, if◌then◌else◌, ℕ,
  zero, suc, ◌-◌, leb,
}
use aisphere_kit.Base.Clock.{ℤ, pos, negsuc, not_positive, millisecond}
use aisphere_kit.Context.{Context}
mod Tests
pub mod Loop
pub mod Policies

-- Config, whose Attempts is an int.
pub record Config : Type 0 where
  pub attempts : ℤ
  pub backoff : Text

pub record Policy : Type 0 where
  pub attempts : ℤ
  pub backoff : ℤ

-- time.ParseDuration and strconv.Atoi of the standard library: a text that does not parse is `none`.
pub record Parsers : Type 0 where
  pub parse_duration : Text → Option ℤ
  pub atoi : Text → Option ℤ

abbrev default_backoff : ℕ → Option ℤ → ℤ
default_backoff n none = pos n
default_backoff n (some d) = if not_positive d then pos n else d

abbrev pub attempts_or_zero : Option ℤ → ℤ
attempts_or_zero none = pos 0
attempts_or_zero (some n) = n

module _ (parsers : Parsers) where
  unfoldable pub new_policy : Config → Policy
  new_policy cfg = record {
    attempts = if not_positive cfg.attempts then pos 1 else cfg.attempts;
    backoff =
        if is_empty cfg.backoff
        then pos 100_000_000
        else default_backoff 100_000_000 (parsers.parse_duration cfg.backoff);
  }

  unfoldable pub new_policy_from_strings : Text → Text → Policy
  unfolding new_policy
  new_policy_from_strings attempts backoff = new_policy (record {
    attempts = if is_empty attempts then pos 0 else attempts_or_zero (parsers.atoi attempts);
    backoff = backoff;
  })

-- The loop returns, or panics by calling `ctx.Done()` on a nil context.
pub data Outcome (A : Type 0) : Type 0 where
  returned : Result A → Outcome A
  nil_context : Outcome A

-- The rounds that the loop has left after its first one.
abbrev pub rounds_of : ℤ → ℕ
rounds_of (pos n) = n - 1
rounds_of (negsuc n) = 0

-- The nanoseconds of a positive backoff.
abbrev pub nanoseconds : ℤ → ℕ
nanoseconds (pos n) = n
nanoseconds (negsuc n) = 0

-- The `select` at the head of a round, which a nil context skips.
abbrev pub poll : {W : Type 0} → Option (Context W) → W → Option Error × W
poll ctx w = elim ctx [ none ↦ (none, w) | some c ↦ c.poll w ]

-- The `select` at the end of a round; `none` is the panic.
abbrev pub pause : {W : Type 0} → Option (Context W) → ℤ → W → Option (Option Error × W)
pause ctx backoff w = elim ctx [ none ↦ none | some c ↦ some (c.pause (nanoseconds backoff) w) ]

module _ {W A : Type 0} where
  -- What follows the wait, given the rounds that are left.
  abbrev pub after_pause : (W → Outcome A × W) → W → Option (Option Error × W) → Outcome A × W
  after_pause more w none = (nil_context, w)
  after_pause more w (some (none, v)) = more v
  after_pause more w (some (some x, v)) = (returned (err x), v)

  -- What follows the call of `fn` in a round that is not the last.
  abbrev pub after_call :
      Option (Context W) → ℤ → (W → Outcome A × W) → Result A × W → Outcome A × W
  after_call ctx backoff more (ok a, w) = (returned (ok a), w)
  after_call ctx backoff more (err e, w) =
      let waited = after_pause more w (pause ctx backoff w) in
      let at_once = more w in if not_positive backoff then at_once else waited

  -- The last round does not wait.
  abbrev pub after_last : Result A × W → Outcome A × W
  after_last (r, w) = (returned r, w)

  abbrev pub when_live : (W → Outcome A × W) → Option Error × W → Outcome A × W
  when_live go (none, w) = go w
  when_live go (some e, w) = (returned (err e), w)

module _ {W A : Type 0} (ctx : Option (Context W)) (backoff : ℤ) (fn : W → Result A × W) where
  -- The loop with so many rounds left after this one.
  unfoldable pub loop : ℕ → W → Outcome A × W
  loop zero w = when_live (λ v. after_last (fn v)) (poll ctx w)
  loop (suc n) w = when_live (λ v. after_call ctx backoff (loop n) (fn v)) (poll ctx w)

-- Do. The value of the variable that the closure of a caller sets is the value of a successful
-- call here: Do returns nil only directly after the call of `fn` that returned nil.
unfoldable pub retry :
    {W A : Type 0} → Option (Context W) → Policy → (W → Result A × W) → W → Outcome A × W
unfolding loop
retry ctx p fn w = loop ctx p.backoff fn (rounds_of p.attempts) w
