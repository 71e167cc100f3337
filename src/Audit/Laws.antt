-- ===== src/Audit/Laws.antt =====
-- audit/audit.go: what Normalize guarantees.
use aisphere_kit.Base.{
  Text, true, false, [], ◌∷◌, ◌++◌, Option, none, some, Error, is_empty, ℕ, if_cases, ◌≡◌, refl,
  arith,
}
use aisphere_kit.Base.Clock.{Clock, Time, time_sub, ℤ, pos, is_zero_int}
use aisphere_kit.Context.{Context}
use aisphere_kit.Principal.Defs.{Principal}
use aisphere_kit.Principal.Lookup.{from_context}
use aisphere_kit.Audit.{
  Event, default_code, normalize, fill_outcome, fill_actor, fill_name, default_text, result_failed,
  result_success,
}

-- What a normalized event `ev` promises, given the event `base` that it was made from, the error and
-- the principal of the context: no field that was set is lost, and those that were not are filled in.
pub record IsNormal (base ev : Event) (e : Option Error) (p : Option Principal) : Type 0 where
  pub result_kept : is_empty base.result ≡ false → ev.result ≡ base.result
  pub result_filled :
      is_empty base.result ≡ true
      → ev.result ≡ elim e [ none ↦ result_success | some x ↦ result_failed ]
  pub status_known : is_zero_int ev.status_code ≡ false
  pub status_kept : is_zero_int base.status_code ≡ false → ev.status_code ≡ base.status_code
  pub named : is_empty ev.name ≡ false
  pub name_kept : is_empty base.name ≡ false → ev.name ≡ base.name
  pub target_kept : (ev.action ≡ base.action) × (ev.resource ≡ base.resource)
  pub actor_known : (q : Principal) → p ≡ some q → ev.actor ≡ some q
  pub actor_kept : p ≡ none → ev.actor ≡ base.actor
  pub duration_measured : ev.duration ≡ time_sub ev.finished_at ev.started_at

append-cons-nonempty : (s : Text) (c : ℕ) (t : Text) → is_empty (s ++ (c ∷ t)) ≡ false
append-cons-nonempty [] c t = refl
append-cons-nonempty (d ∷ s) c t = refl

abbrev timed : Event → Time → Time → Event
timed base started finished = record base {
  started_at = started;
  finished_at = finished;
  duration = time_sub finished started;
}

default_text-kept : (s t : Text) → is_empty s ≡ false → default_text s t ≡ s
default_text-kept [] t h = absurd (ground arith)
default_text-kept (c ∷ s) t h = refl

default_text-filled : (s t : Text) → is_empty s ≡ true → default_text s t ≡ t
default_text-filled [] t h = refl
default_text-filled (c ∷ s) t h = absurd (ground arith)

default_text-nonempty : (s t : Text) → is_empty t ≡ false → is_empty (default_text s t) ≡ false
default_text-nonempty [] t h = h
default_text-nonempty (c ∷ s) t h = refl

default_code-known : (n m : ℤ) → is_zero_int m ≡ false → is_zero_int (default_code n m) ≡ false
default_code-known n m h =
    if_cases (λ x. is_zero_int x ≡ false) (is_zero_int n) m n (λ e. h) (λ e. e)

default_code-kept : (n m : ℤ) → is_zero_int n ≡ false → default_code n m ≡ n
default_code-kept n m h = rw h refl

module _ (base : Event) (started finished : Time) where
  filled-IsNormal :
      (e : Option Error) (p : Option Principal)
      → IsNormal base (fill_name (fill_actor (fill_outcome (timed base started finished) e) p)) e p
  unfolding fill_name fill_actor fill_outcome
  filled-IsNormal none none = record {
    result_kept = default_text-kept _ _;
    result_filled = default_text-filled _ _;
    status_known = default_code-known base.status_code (pos 200) refl;
    status_kept = default_code-kept base.status_code (pos 200);
    named = default_text-nonempty base.name _ (append-cons-nonempty _ _ _);
    name_kept = default_text-kept _ _;
    target_kept = (refl, refl);
    actor_known = λ q h. cc;
    actor_kept = λ h. cc;
    duration_measured = refl;
  }
  filled-IsNormal none (some p) = record {
    result_kept = default_text-kept _ _;
    result_filled = default_text-filled _ _;
    status_known = default_code-known base.status_code (pos 200) refl;
    status_kept = default_code-kept base.status_code (pos 200);
    named = default_text-nonempty base.name _ (append-cons-nonempty _ _ _);
    name_kept = default_text-kept _ _;
    target_kept = (refl, refl);
    actor_known = λ q h. cc;
    actor_kept = λ h. cc;
    duration_measured = refl;
  }
  filled-IsNormal (some x) none = record {
    result_kept = default_text-kept _ _;
    result_filled = default_text-filled _ _;
    status_known = default_code-known base.status_code (pos 500) refl;
    status_kept = default_code-kept base.status_code (pos 500);
    named = default_text-nonempty base.name _ (append-cons-nonempty _ _ _);
    name_kept = default_text-kept _ _;
    target_kept = (refl, refl);
    actor_known = λ q h. cc;
    actor_kept = λ h. cc;
    duration_measured = refl;
  }
  filled-IsNormal (some x) (some p) = record {
    result_kept = default_text-kept _ _;
    result_filled = default_text-filled _ _;
    status_known = default_code-known base.status_code (pos 500) refl;
    status_kept = default_code-kept base.status_code (pos 500);
    named = default_text-nonempty base.name _ (append-cons-nonempty _ _ _);
    name_kept = default_text-kept _ _;
    target_kept = (refl, refl);
    actor_known = λ q h. cc;
    actor_kept = λ h. cc;
    duration_measured = refl;
  }

module _ {W : Type 0} (clock : Clock W) (ctx : Option (Context W)) where
  -- Normalize keeps a result, a status code and a name that are set and fills in the others: the
  -- result by whether there is an error, the status code with a number that is not 0, the name with a
  -- text that is not empty. The action and the resource are kept, the actor is the principal of the
  -- context where there is one, and the duration is the time between the two stamps.
  pub normalize-IsNormal :
      (base : Event) (e : Option Error) (w : W)
      → IsNormal base (normalize clock ctx base e w).0 e (from_context ctx)
  unfolding normalize
  normalize-IsNormal base e w = filled-IsNormal base _ _ e (from_context ctx)
