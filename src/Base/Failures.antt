-- ===== src/Base/Failures.antt =====
-- Go's error values: sentinels, formatted errors, errors that wrap another (`%w`), and the lists
-- of `errors.Join`; with `errors.Is` and `Error()`.
use mathlib.Core.Bool.{Bool, false, ◌||◌}
use mathlib.Core.Option.{Option, none, some}
use mathlib.Core.List.{List, [], ◌∷◌, ◌++◌}
use Prim.Native.Nat.{ℕ}
use aisphere_kit.Base.Tests.{eqb}
use aisphere_kit.Base.Strings.{Text, codes}

-- The sentinel errors of the packages, and those of the context package.
pub data Sentinel : Type 0 where
  missing_principal : Sentinel
  authn_not_configured token_missing principal_empty : Sentinel
  denied not_configured empty_authorization : Sentinel
  manager_nil empty_subject empty_resource empty_action empty_role : Sentinel
  unsupported_role not_supported permission_denied : Sentinel
  state_mismatch cache_miss jsonb_null : Sentinel
  canceled deadline_exceeded : Sentinel

-- Distinct numbers tell the sentinels apart, as their addresses do.
abbrev pub index : Sentinel → ℕ
index missing_principal = 0
index authn_not_configured = 1
index token_missing = 2
index principal_empty = 3
index denied = 4
index not_configured = 5
index empty_authorization = 6
index manager_nil = 7
index empty_subject = 8
index empty_resource = 9
index empty_action = 10
index empty_role = 11
index unsupported_role = 12
index not_supported = 13
index permission_denied = 14
index state_mismatch = 15
index cache_miss = 16
index jsonb_null = 17
index canceled = 18
index deadline_exceeded = 19

unfoldable pub message : Sentinel → Text
message missing_principal = codes "principal missing from context"
message authn_not_configured = codes "authenticator is nil"
message token_missing = codes "missing bearer token"
message principal_empty = codes "token produced empty principal"
message denied = codes "permission denied"
message not_configured = codes "authorizer is nil"
message empty_authorization = codes "authorization resolver returned empty resource or action"
message manager_nil = codes "permission manager is nil"
message empty_subject = codes "permission subject is required"
message empty_resource = codes "permission resource is required"
message empty_action = codes "permission action is required"
message empty_role = codes "permission role is required"
message unsupported_role = codes "unsupported permission role"
message not_supported = codes "permission operation is not supported by current backend"
message permission_denied = codes "permission denied"
message state_mismatch = codes "oauth state mismatch"
message cache_miss = codes "cache miss"
message jsonb_null = codes "jsonb: column is null"
message canceled = codes "context canceled"
message deadline_exceeded = codes "context deadline exceeded"

mutual
  -- `wrapped before e after` is `fmt.Errorf` with one `%w` between two formatted texts.
  pub data Error : Type 0 where
    sentinel : Sentinel → Error
    plain : Text → Error
    wrapped : Text → Error → Text → Error
    joined : Errors → Error

  pub data Errors : Type 0 where
    only : Error → Errors
    also : Error → Errors → Errors

unfoldable mutual
  -- `errors.Is(e, s)`.
  pub is : Error → Sentinel → Bool
  is (sentinel t) s = eqb (index t) (index s)
  is (plain m) s = false
  is (wrapped before e after) s = is e s
  is (joined es) s = any_is es s

  pub any_is : Errors → Sentinel → Bool
  any_is (only e) s = is e s
  any_is (also e es) s = is e s || any_is es s

unfoldable mutual
  -- `e.Error()`.
  pub text_of : Error → Text
  text_of (sentinel s) = message s
  text_of (plain m) = m
  text_of (wrapped before e after) = before ++ (text_of e ++ after)
  text_of (joined es) = texts_of es

  pub texts_of : Errors → Text
  texts_of (only e) = text_of e
  texts_of (also e es) = text_of e ++ (b'\n' ∷ texts_of es)

abbrev pub errors_from : Error → List Error → Errors
errors_from e [] = only e
errors_from e (f ∷ fs) = also e (errors_from f fs)

-- `errors.Join(errs...)` of errors that are not nil.
abbrev pub join : List Error → Option Error
join [] = none
join (e ∷ es) = some (joined (errors_from e es))
