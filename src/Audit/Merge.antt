-- ===== src/Audit/Merge.antt =====
-- audit/audit.go: Merge layers one event over another.
use aisphere_kit.Base.{
  Text, [], ◌∷◌, Option, none, some, if◌then◌else◌, ℕ, zero, suc, eqb, ◌≡◌, ◌≢◌, ◌⊎◌, inl, inr,
  refl, arith,
}
use aisphere_kit.Base.Clock.{ℤ, pos, negsuc, is_zero_int}
use aisphere_kit.Audit.{Event, merge, zero_event, override_text, override_pointer}

override_text_assoc :
    (a b c : Text) → override_text (override_text a b) c ≡ override_text a (override_text b c)
override_text_assoc a b [] = refl
override_text_assoc a b (c ∷ s) = refl

override_pointer_assoc :
    {A : Type 0} (a b c : Option A)
    → override_pointer (override_pointer a b) c ≡ override_pointer a (override_pointer b c)
override_pointer_assoc a b none = refl
override_pointer_assoc a b (some c) = refl

-- `merge` of a time, and of a number: what is not 0 wins.
abbrev override_time : ℕ → ℕ → ℕ
override_time a b = if eqb b 0 then a else b

override_time_assoc :
    (a b c : ℕ) → override_time (override_time a b) c ≡ override_time a (override_time b c)
override_time_assoc a b c = ground arith

abbrev override_int : ℤ → ℤ → ℤ
override_int a b = if is_zero_int b then a else b

override_int_assoc :
    (a b c : ℤ) → override_int (override_int a b) c ≡ override_int a (override_int b c)
override_int_assoc a b (negsuc n) = refl
override_int_assoc a (pos m) (pos n) = ground arith
override_int_assoc a (negsuc m) (pos n) = ground arith

override_text_nil : (a : Text) → override_text [] a ≡ a
override_text_nil [] = refl
override_text_nil (c ∷ s) = refl

override_pointer_nil : {A : Type 0} (a : Option A) → override_pointer none a ≡ a
override_pointer_nil none = refl
override_pointer_nil (some a) = refl

override_time_nil : (a : ℕ) → override_time 0 a ≡ a
override_time_nil a = ground arith

override_int_nil : (a : ℤ) → override_int (pos 0) a ≡ a
override_int_nil (pos n) = ground arith
override_int_nil (negsuc n) = refl

-- Merging is associative: layers of overrides can be combined in either grouping.
pub merge_assoc : (a b c : Event) → merge (merge a b) c ≡ merge a (merge b c)
unfolding merge
merge_assoc a b c = λ i. record {
  name = override_text_assoc a.name b.name c.name i;
  actor = override_pointer_assoc a.actor b.actor c.actor i;
  action = override_text_assoc a.action b.action c.action i;
  resource = override_text_assoc a.resource b.resource c.resource i;
  result = override_text_assoc a.result b.result c.result i;
  message = override_text_assoc a.message b.message c.message i;
  request_id = override_text_assoc a.request_id b.request_id c.request_id i;
  trace_id = override_text_assoc a.trace_id b.trace_id c.trace_id i;
  client_ip = override_text_assoc a.client_ip b.client_ip c.client_ip i;
  user_agent = override_text_assoc a.user_agent b.user_agent c.user_agent i;
  method = override_text_assoc a.method b.method c.method i;
  uri = override_text_assoc a.uri b.uri c.uri i;
  operation = override_text_assoc a.operation b.operation c.operation i;
  status_code = override_int_assoc a.status_code b.status_code c.status_code i;
  component = override_text_assoc a.component b.component c.component i;
  org_id = override_text_assoc a.org_id b.org_id c.org_id i;
  project_id = override_text_assoc a.project_id b.project_id c.project_id i;
  started_at = override_time_assoc a.started_at b.started_at c.started_at i;
  finished_at = override_time_assoc a.finished_at b.finished_at c.finished_at i;
  duration = override_int_assoc a.duration b.duration c.duration i;
  metadata = override_pointer_assoc a.metadata b.metadata c.metadata i;
}

-- What is set in the second wins, and what is not set there is taken from the first.
abbrev pub Takes : {A : Type 0} → A → A → A → A → Type 0
Takes unset a b c = ((b ≡ unset) × (c ≡ a)) ⊎ ((b ≢ unset) × (c ≡ b))

Takes-override_text : (a b : Text) → Takes [] a b (override_text a b)
Takes-override_text a [] = inl (refl, refl)
Takes-override_text a (c ∷ s) = inr (λ e. ground arith, refl)

Takes-override_pointer : {A : Type 0} (a b : Option A) → Takes none a b (override_pointer a b)
Takes-override_pointer a none = inl (refl, refl)
Takes-override_pointer a (some x) = inr (λ e. ground arith, refl)

Takes-override_time : (a b : ℕ) → Takes 0 a b (override_time a b)
Takes-override_time a zero = inl (refl, refl)
Takes-override_time a (suc n) = inr (λ e. ground arith, ground arith)

Takes-override_int : (a b : ℤ) → Takes (pos 0) a b (override_int a b)
Takes-override_int a (pos zero) = inl (refl, refl)
Takes-override_int a (pos (suc n)) = inr (λ e. ground arith, ground arith)
Takes-override_int a (negsuc n) = inr (λ e. ground arith, refl)

-- The event `c` has each field of `b` that is set, and has the others of `a`.
pub record IsLayered (a b c : Event) : Type 0 where
  pub name : Takes [] a.name b.name c.name
  pub actor : Takes none a.actor b.actor c.actor
  pub action : Takes [] a.action b.action c.action
  pub resource : Takes [] a.resource b.resource c.resource
  pub result : Takes [] a.result b.result c.result
  pub message : Takes [] a.message b.message c.message
  pub request_id : Takes [] a.request_id b.request_id c.request_id
  pub trace_id : Takes [] a.trace_id b.trace_id c.trace_id
  pub client_ip : Takes [] a.client_ip b.client_ip c.client_ip
  pub user_agent : Takes [] a.user_agent b.user_agent c.user_agent
  pub method : Takes [] a.method b.method c.method
  pub uri : Takes [] a.uri b.uri c.uri
  pub operation : Takes [] a.operation b.operation c.operation
  pub status_code : Takes (pos 0) a.status_code b.status_code c.status_code
  pub component : Takes [] a.component b.component c.component
  pub org_id : Takes [] a.org_id b.org_id c.org_id
  pub project_id : Takes [] a.project_id b.project_id c.project_id
  pub started_at : Takes 0 a.started_at b.started_at c.started_at
  pub finished_at : Takes 0 a.finished_at b.finished_at c.finished_at
  pub duration : Takes (pos 0) a.duration b.duration c.duration
  pub metadata : Takes none a.metadata b.metadata c.metadata

layered : (a b : Event) → IsLayered a b (merge a b)
unfolding merge
layered a b = record {
  name = Takes-override_text a.name b.name;
  actor = Takes-override_pointer a.actor b.actor;
  action = Takes-override_text a.action b.action;
  resource = Takes-override_text a.resource b.resource;
  result = Takes-override_text a.result b.result;
  message = Takes-override_text a.message b.message;
  request_id = Takes-override_text a.request_id b.request_id;
  trace_id = Takes-override_text a.trace_id b.trace_id;
  client_ip = Takes-override_text a.client_ip b.client_ip;
  user_agent = Takes-override_text a.user_agent b.user_agent;
  method = Takes-override_text a.method b.method;
  uri = Takes-override_text a.uri b.uri;
  operation = Takes-override_text a.operation b.operation;
  status_code = Takes-override_int a.status_code b.status_code;
  component = Takes-override_text a.component b.component;
  org_id = Takes-override_text a.org_id b.org_id;
  project_id = Takes-override_text a.project_id b.project_id;
  started_at = Takes-override_time a.started_at b.started_at;
  finished_at = Takes-override_time a.finished_at b.finished_at;
  duration = Takes-override_int a.duration b.duration;
  metadata = Takes-override_pointer a.metadata b.metadata;
}

-- Merge gives each of the fields of an event the value of the override, where that is set there, and of
-- the base, where it is not; and layers of overrides can be combined in either grouping.
pub merge-IsLayered :
    (a b c : Event) → IsLayered a b (merge a b) × (merge (merge a b) c ≡ merge a (merge b c))
merge-IsLayered a b c = (layered a b, merge_assoc a b c)

merge_zero_left : (a : Event) → merge zero_event a ≡ a
unfolding merge
merge_zero_left a = λ i. record {
  name = override_text_nil a.name i;
  actor = override_pointer_nil a.actor i;
  action = override_text_nil a.action i;
  resource = override_text_nil a.resource i;
  result = override_text_nil a.result i;
  message = override_text_nil a.message i;
  request_id = override_text_nil a.request_id i;
  trace_id = override_text_nil a.trace_id i;
  client_ip = override_text_nil a.client_ip i;
  user_agent = override_text_nil a.user_agent i;
  method = override_text_nil a.method i;
  uri = override_text_nil a.uri i;
  operation = override_text_nil a.operation i;
  status_code = override_int_nil a.status_code i;
  component = override_text_nil a.component i;
  org_id = override_text_nil a.org_id i;
  project_id = override_text_nil a.project_id i;
  started_at = override_time_nil a.started_at i;
  finished_at = override_time_nil a.finished_at i;
  duration = override_int_nil a.duration i;
  metadata = override_pointer_nil a.metadata i;
}

override_text_self : (a : Text) → override_text a a ≡ a
override_text_self [] = refl
override_text_self (c ∷ s) = refl

override_pointer_self : {A : Type 0} (a : Option A) → override_pointer a a ≡ a
override_pointer_self none = refl
override_pointer_self (some a) = refl

override_time_self : (a : ℕ) → override_time a a ≡ a
override_time_self a = ground arith

override_int_self : (a : ℤ) → override_int a a ≡ a
override_int_self (pos n) = ground arith
override_int_self (negsuc n) = refl

merge_self : (a : Event) → merge a a ≡ a
unfolding merge
merge_self a = λ i. record {
  name = override_text_self a.name i;
  actor = override_pointer_self a.actor i;
  action = override_text_self a.action i;
  resource = override_text_self a.resource i;
  result = override_text_self a.result i;
  message = override_text_self a.message i;
  request_id = override_text_self a.request_id i;
  trace_id = override_text_self a.trace_id i;
  client_ip = override_text_self a.client_ip i;
  user_agent = override_text_self a.user_agent i;
  method = override_text_self a.method i;
  uri = override_text_self a.uri i;
  operation = override_text_self a.operation i;
  status_code = override_int_self a.status_code i;
  component = override_text_self a.component i;
  org_id = override_text_self a.org_id i;
  project_id = override_text_self a.project_id i;
  started_at = override_time_self a.started_at i;
  finished_at = override_time_self a.finished_at i;
  duration = override_int_self a.duration i;
  metadata = override_pointer_self a.metadata i;
}

-- The event with nothing set is neutral on both sides, and merging an event with itself changes
-- nothing.
pub merge_zero : (a : Event) → (merge a zero_event ≡ a) × (merge zero_event a ≡ a) × (merge a a ≡ a)
merge_zero a = (unfold merge in refl, merge_zero_left a, merge_self a)
