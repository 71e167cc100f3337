-- ===== src/Principal/Lookup.antt =====
-- principal/principal.go: NewContext, FromContext, RequireFromContext and MustFromContext.
use aisphere_kit.Base.{
  Option, none, some, ◌≡◌, refl, Result, ok, err, Error, sentinel, Sentinel, if◌then◌else◌,
}
use aisphere_kit.Context.{Context, Value, principal_key, principal, with_value}
use aisphere_kit.Principal.Defs.{Principal, is_zero}

unfoldable pub new_context : {W : Type 0} → Context W → Option Principal → Context W
new_context ctx p = with_value ctx principal_key (principal p)

-- The type assertion `.(*Principal)`, and the test that the pointer is not nil.
abbrev as_principal : Option Value → Option Principal
as_principal (some (principal p)) = p
as_principal _ = none

-- `(p, true)` is `some p`, and `(_, false)` is `none`.
unfoldable pub from_context : {W : Type 0} → Option (Context W) → Option Principal
from_context none = none
from_context (some ctx) = as_principal (ctx.value principal_key)

unfoldable pub require_from_context : {W : Type 0} → Option (Context W) → Result Principal
unfolding from_context
require_from_context ctx = elim (from_context ctx) [
  | none ↦ err (sentinel Sentinel.missing_principal)
  | some p ↦ if is_zero p then err (sentinel Sentinel.missing_principal) else ok p
]

-- A call that returns, or panics with an error.
pub data Outcome (A : Type 0) : Type 0 where
  returned : A → Outcome A
  panicked : Error → Outcome A

unfoldable pub must_from_context : {W : Type 0} → Option (Context W) → Outcome Principal
must_from_context ctx = elim (require_from_context ctx) [ ok p ↦ returned p | err e ↦ panicked e ]

-- What was put into the context is found there.
pub from_context-new_context :
    {W : Type 0} (ctx : Context W) (p : Option Principal)
    → from_context (some (new_context ctx p)) ≡ p
unfolding from_context new_context
from_context-new_context ctx none = refl
from_context-new_context ctx (some p) = refl
