-- ===== src/Audit/Tests.antt =====
-- audit/audit.go: the theorems at concrete inputs.
use aisphere_kit.Base.{some, ◌≡◌, plain}
use aisphere_kit.Audit.{Event, merge, zero_event}
use aisphere_kit.Audit.Merge.{IsLayered, merge-IsLayered}
use aisphere_kit.Base.{
  none, ℕ, suc, ◌-◌, ◌≤◌, ltb, if◌then◌else◌, Bool, true, false, ◌⊎◌, inl, inr, refl, arith,
}
use aisphere_kit.Base.Clock.{pos}
use aisphere_kit.Audit.{Recorder}
use aisphere_kit.Audit.Async.{Limit, Channel, record_async, record_async-Used}
use aisphere_kit.Samples.{al, doc, read}

abbrev event : Event
event = record zero_event { action = read; resource = doc }

abbrev named_event : Event
named_event = record zero_event { name = al; status_code = pos 404 }

merge-IsLayered_example :
    IsLayered event named_event (merge event named_event)
    × (merge (merge event named_event) event ≡ merge event (merge named_event event))
merge-IsLayered_example = merge-IsLayered event named_event event

-- A channel with two places, and a recorder that fails.
abbrev limit : Limit ℕ
limit = record {
  try_send = λ n. if ltb n 2 then (true, suc n) else (false, n);
  receive = λ n. n - 1;
}

abbrev failing : Recorder ℕ
failing = record { record_event = λ ctx ev n. (some (plain al), n) }

sent_lem :
    (n n' : ℕ) (b c : Bool)
    → ltb n 2 ≡ b
    → limit.try_send n ≡ (c, n')
    → ((c ≡ true) × (n' ≡ suc n) × (n' ≤ 2)) ⊎ ((c ≡ false) × (n' ≡ n) × (2 ≤ n))
sent_lem n n' true c p h = inl (ground arith)
sent_lem n n' false c p h = inr (ground arith)

abbrev channel : Channel failing limit
channel = record {
  used = λ n. n;
  capacity = 2;
  sends = λ n n' h. ground (arith, sent_lem n n' _ true refl h);
  refuses = λ n n' h. ground (arith, sent_lem n n' _ false refl h);
  receives = λ n k h. omega (arith, h);
  records = λ ctx ev n. refl;
}

record_async-Used_example :
    record_async (λ c t. c) none (some failing) event (some limit) (pos 0) 1 ≡ 1
record_async-Used_example = record_async-Used failing limit channel (λ c t. c) none event (pos 0) 1
