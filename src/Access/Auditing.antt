-- ===== src/Access/Auditing.antt =====
-- access/access.go: what RequireAndAudit returns, and what the audit recorder sees of it.
use aisphere_kit.Base.{
  Text, false, [], ◌∷◌, Option, none, some, Result, ok, err, Error, is_empty, if◌then◌else◌, ◌≡◌,
  refl, ◌∙◌, ap, arith, first_non_empty, codes, if_either,
}
use aisphere_kit.Base.Clock.{Clock, Time, is_zero_time, is_zero_int, ℤ, pos, negsuc}
use aisphere_kit.Context.{Context}
use aisphere_kit.Principal.Defs.{Principal}
use aisphere_kit.Principal.Lookup.{from_context}
use aisphere_kit.Audit
use aisphere_kit.Audit.{
  Recorder, normalize, stamp, record_with, default_text, default_code, result_failed,
  result_success,
}
use aisphere_kit.Audit.Laws.{normalize-IsNormal, IsNormal}
use aisphere_kit.Access.{
  Check, Event, Guard, require, record_event, record_known, require_and_audit, audit_result,
  mark_denied, mark_granted, to_audit,
}

-- The audit event `aev` that is recorded for the business event `ev` with the given outcome.
pub record IsAuditOf (ev : Event) (aev : Audit.Event) (actor : Option Principal) (result : Text)
    : Type 0 where
  pub outcome : aev.result ≡ result
  pub target : (aev.action ≡ ev.action) × (aev.resource ≡ ev.resource)
  pub status_known : is_zero_int aev.status_code ≡ false
  pub named : is_empty aev.name ≡ false
  pub actor_known : aev.actor ≡ actor

audit_result-result :
    {W : Type 0} (clock : Clock W) (g : Option (Guard W)) (ctx : Option (Context W)) (ev : Event)
    (r : Result Principal × W)
    → (audit_result clock g ctx ev r).0 ≡ r.0
audit_result-result clock g ctx ev (ok p, w) = refl
audit_result-result clock g ctx ev (err e, w) = refl

first_non_empty-two : (s t : Text) → first_non_empty (s ∷ t ∷ []) ≡ default_text s t
unfolding first_non_empty
first_non_empty-two [] [] = refl
first_non_empty-two [] (c ∷ t) = refl
first_non_empty-two (c ∷ s) t = refl

default_text-empty : (s t : Text) → is_empty t ≡ false → is_empty (default_text s t) ≡ false
default_text-empty [] t h = h
default_text-empty (c ∷ s) t h = refl

default_code-known : (n : ℤ) → is_zero_int (default_code n (pos 403)) ≡ false
default_code-known (pos n) = ground arith
default_code-known (negsuc n) = refl

-- The worlds that `w` becomes when the clock is read, and nothing else is done.
pub data Reads {W : Type 0} (clock : Clock W) (w : W) : W → Type 0 where
  here : Reads clock w w
  next : {v : W} → Reads clock w v → Reads clock w (clock.now v).1

module _ {W : Type 0} (clock : Clock W) where
  Reads-stamp : (t : Time) (w v : W) → Reads clock w v → Reads clock w (stamp clock t v).1
  unfolding stamp
  Reads-stamp t w v h =
      if_either (λ (x : Time × W). Reads clock w x.1) (is_zero_time t) (clock.now v) (t, v) (next h)
        h

  Reads-normalize :
      (ctx : Option (Context W)) (base : Audit.Event) (e : Option Error) (w v : W)
      → Reads clock w v
      → Reads clock w (normalize clock ctx base e v).1
  unfolding normalize
  Reads-normalize ctx base e w v h =
      Reads-stamp base.finished_at w _ (Reads-stamp base.started_at w v h)

  -- Auditing never changes the decision: RequireAndAudit returns what Require returns, whatever the
  -- recorder answers and also when there is none.
  pub require_and_audit-result :
      (g : Option (Guard W)) (ctx : Option (Context W)) (check : Check) (ev : Event) (w : W)
      → (require_and_audit clock g ctx check ev w).0 ≡ (require g ctx check w).0
  unfolding require_and_audit
  require_and_audit-result g ctx check ev w =
      audit_result-result clock g ctx ev (require g ctx check w)

  module _ (g : Guard W) (r : Recorder W) (configured : g.audit ≡ some r)
      (ctx : Option (Context W)) where
    -- The one call of the recorder that a recorded business event leads to.
    record Recorded (ev : Event) (w : W) : Type 0 where
      aev : Audit.Event
      v : W
      untouched : Reads clock w v
      call : record_event clock (some g) ctx ev w ≡ r.record_event ctx aev v
      action_kept : aev.action ≡ ev.action
      resource_kept : aev.resource ≡ ev.resource
      result_kept : is_empty ev.result ≡ false → aev.result ≡ ev.result
      status_known : is_zero_int aev.status_code ≡ false
      status_kept : is_zero_int ev.status_code ≡ false → aev.status_code ≡ ev.status_code
      named : is_empty aev.name ≡ false
      actor_known : aev.actor ≡ from_context ctx

    actor_of :
        (base aev : Audit.Event) (p : Option Principal)
        → IsNormal base aev none p
        → base.actor ≡ none
        → aev.actor ≡ p
    actor_of base aev none n h = n.actor_kept refl ∙ h
    actor_of base aev (some p) n h = n.actor_known p refl

    recorded : (ev : Event) (w : W) → Recorded ev w
    unfolding record_event record_known to_audit record_with
    recorded ev w =
        let (now, w₁) = clock.now w in
        let base : Audit.Event =
          to_audit ev g.component (if is_zero_time ev.started_at then now else ev.started_at)
            (if is_zero_time ev.finished_at then now else ev.finished_at) in
        let n = normalize-IsNormal clock ctx base none w₁ in
        record {
          aev = (normalize clock ctx base none w₁).0;
          v = (normalize clock ctx base none w₁).1;
          untouched = Reads-normalize ctx base none w w₁ (next here);
          call = rw configured refl;
          action_kept = n.target_kept.0;
          resource_kept = n.target_kept.1;
          result_kept = n.result_kept;
          status_known = n.status_known;
          status_kept = n.status_kept;
          named = n.named;
          actor_known = actor_of base _ (from_context ctx) n refl;
        }

    module _ (check : Check) (ev : Event) (w w' : W) where
      -- A denial is returned, and after the decision nothing is done to the world but that the clock is
      -- read and the recorder is called, once, with an event of the same action and resource whose result is "failed", whatever result the caller asked for, whose status code is
      -- not 0 and is 403 unless the caller set one, whose name is not empty, and whose actor is the
      -- principal of the context, if there is one.
      pub require_and_audit_denied :
          (e : Error)
          → require (some g) ctx check w ≡ (err e, w')
          → (aev : Audit.Event) × (v : W) × Reads clock w' v
            × (require_and_audit clock (some g) ctx check ev w
                ≡ (err e, (r.record_event ctx aev v).1))
            × IsAuditOf ev aev (from_context ctx) result_failed
            × (aev.status_code ≡ default_code ev.status_code (pos 403))
      unfolding require_and_audit
      require_and_audit_denied e h =
          let marked = mark_denied ev e in
          let c = recorded marked w' in
          (
            c.aev,
            c.v,
            c.untouched,
            rw h (ap (λ (x : Option Error × W). (err e, x.1)) c.call),
            record {
              outcome = unfold mark_denied in c.result_kept (unfold codes in refl);
              target = unfold mark_denied in (c.action_kept, c.resource_kept);
              status_known = c.status_known;
              named = c.named;
              actor_known = c.actor_known;
            },
            unfold mark_denied in c.status_kept (default_code-known ev.status_code),
          )

      -- A grant is returned, and after the decision nothing is done to the world but that the clock is
      -- read and the recorder is called, once, with an event of the same action and resource, whose
      -- status code is not 0, whose name is not empty, whose actor is the principal of the context, if
      -- there is one, and whose result is the caller's or else "success".
      pub require_and_audit_granted :
          (p : Principal)
          → require (some g) ctx check w ≡ (ok p, w')
          → (aev : Audit.Event) × (v : W) × Reads clock w' v
            × (require_and_audit clock (some g) ctx check ev w
                ≡ (ok p, (r.record_event ctx aev v).1))
            × IsAuditOf ev aev (from_context ctx) (default_text ev.result result_success)
      unfolding require_and_audit
      require_and_audit_granted p h =
          let marked = mark_granted ev in
          let c = recorded marked w' in
          (
            c.aev,
            c.v,
            c.untouched,
            rw h (ap (λ (x : Option Error × W). (ok p, x.1)) c.call),
            record {
              outcome =
                  unfold mark_granted in
                  c.result_kept
                    (rw first_non_empty-two (default_text-empty ev.result _ (unfold codes in refl)))
                  ∙ first_non_empty-two ev.result result_success;
              target = unfold mark_granted in (c.action_kept, c.resource_kept);
              status_known = c.status_known;
              named = c.named;
              actor_known = c.actor_known;
            },
          )
