-- ===== src/Samples.antt =====
-- Test data that the test modules share.
use aisphere_kit.Base.{Text, true, false, [], ◌∷◌, Option, none, some, ok}
use aisphere_kit.Base.Clock.{Clock}
use aisphere_kit.Context.{Context, finished, with_value, principal_key, principal}
use aisphere_kit.Principal.Defs.{Principal, zero_principal}
use aisphere_kit.Authz.{Authorizer}

abbrev pub user : Text
user = b'u' ∷ b's' ∷ b'e' ∷ b'r' ∷ []

abbrev pub al : Text
al = b'a' ∷ b'l' ∷ []

abbrev pub doc : Text
doc = b'd' ∷ b'o' ∷ b'c' ∷ []

abbrev pub read : Text
read = b'r' ∷ b'e' ∷ b'a' ∷ b'd' ∷ []

abbrev pub alice : Principal
alice = record zero_principal { subject_type = user; subject_id = al }

-- A context that is never done.
abbrev pub quiet : {W : Type 0} → Context W
quiet = record {
  value = λ k. none;
  poll = λ w. (none, w);
  pause = λ n w. (none, w);
  race = λ w. (finished, w);
}

abbrev pub context_of_alice : {W : Type 0} → Option (Context W)
context_of_alice = some (with_value quiet principal_key (principal (some alice)))

abbrev pub allow_all : {W : Type 0} → Authorizer W
allow_all = record { authorize = λ ctx req w. (ok true, w) }

abbrev pub deny_all : {W : Type 0} → Authorizer W
deny_all = record { authorize = λ ctx req w. (ok false, w) }

abbrev pub stopped_clock : {W : Type 0} → Clock W
stopped_clock = record { now = λ w. (1_000, w) }
