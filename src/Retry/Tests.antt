-- ===== src/Retry/Tests.antt =====
-- retry/retry.go: the theorems at concrete inputs.
use Prim.Native.Nat.{ℕ, suc}
use aisphere_kit.Base.{none, some, Result, ok, err, plain, ◌≡◌, refl, if◌then◌else◌, ltb}
use aisphere_kit.Base.Clock.{pos}
use aisphere_kit.Retry.{Policy, Parsers, nil_context, retry}
use aisphere_kit.Retry.Loop.{Ends, Ends-retry, retry-nil_context}
use aisphere_kit.Samples.{al, quiet}

-- Fails twice, then succeeds; the world counts the calls.
abbrev flaky : ℕ → Result ℕ × ℕ
flaky n = (if ltb n 2 then err (plain al) else ok n, suc n)

abbrev policy : Policy
policy = record { attempts = pos 3; backoff = pos 1 }

Ends-retry_example :
    Ends
      (some quiet)
      (pos 1)
      flaky
      2
      0
      (retry (some quiet) policy flaky 0).0
      (retry (some quiet) policy flaky 0).1
Ends-retry_example = Ends-retry (some quiet) policy flaky 0

retry-nil_context_example : retry none policy flaky 0 ≡ (nil_context, 1)
retry-nil_context_example = retry-nil_context 1 0 flaky 0 1 (plain al) refl

-- Parsers that accept nothing.
abbrev no_parsers : Parsers
no_parsers = record { parse_duration = λ s. none; atoi = λ s. none }
