-- ===== src/Workers/Outbox/Batch.antt =====
-- A batch of the drain that no failure has stopped (`OutboxOrchestrator.process_event` and
-- `run_once` of src/vulnops/workers/orchestration.py).
use vulnops_hub.Prelude.{
  ℕ, ◌≤◌, ◌<◌, String, Bool, true, false, not, ◌&&◌, Option, none, some, List, [], ◌∷◌, update, ◌≡◌,
  refl, sym, ap, ◌∙◌, inl, inr, eq_iff, arith, count, count-split, count_mem,
}
use mathlib.Core.List.{Memᴰ}
use mathlib.Core.List.Memᴰ
use vulnops_hub.Db.{OutboxEvent}
use vulnops_hub.Session.{Session, Action, Result, ok, err, Error, raise, pure, run}
use vulnops_hub.Session.Steps.{>>-ok, pure-ok}
use vulnops_hub.Workers.Outbox.{
  Limits, Progress, is_handled, has_event_id, delivered_row, update_event, complete_event,
  process_by, after_handler, fail_event, process_event, process_batch, after_event, counted,
}
use vulnops_hub.Workers.Outbox.Emits.{is_work, Follows-refl, Emits}
use vulnops_hub.Workers.Outbox.Counts.{
  Processed, Counted, Processed-count, Processed-gone, Counted-narrow,
}

-- What a delivery leaves: the rows of the event are delivered, and all that was pending is committed.
pub record Delivered (event : OutboxEvent) (s t : Session) : Type 0 where
  pub now : ℕ
  pub rows : t.working.outbox ≡ update (has_event_id event.id) (delivered_row now) s.working.outbox
  pub durable : t.committed ≡ t.working

pub complete_event-ok :
    (event : OutboxEvent) (s t : Session)
    → complete_event event s ≡ (ok tt, t)
    → Delivered event s t
unfolding complete_event update_event run
complete_event-ok event s t h = record {
  now = s.world.clock s.ticks;
  rows = ground (arith, h);
  durable = ground (arith, h);
}

raise_not_ok : {A : Type 0} (e : Error) (s t : Session) (a : A) → raise e s ≡ (ok a, t) → ⊥
unfolding raise
raise_not_ok e s t a h = cc

module _ (limits : Limits) (handler : OutboxEvent → Action String) where
  after_handler-ok :
      (event : OutboxEvent) (r : Result String) (s t : Session) (a : Option String)
      → after_handler limits handler event r s ≡ (ok a, t)
      → (summary : String) × (r ≡ ok summary) × Delivered event s t
  after_handler-ok event (ok summary) s t a h =
      let (u, s', done, last) = >>-ok (complete_event event) (pure (some summary)) s t h in
      let (e, same) = pure-ok (some summary) a s' t last in
      (summary, refl, complete_event-ok event s t (done ∙ λ i. (ok tt, same i)))
  after_handler-ok event (err e) s t a h =
      let (u, s', done, last) = >>-ok (fail_event event) (raise e) s t h in
      absurd (raise_not_ok e s' t a last)

  process_by-ok :
      ((event : OutboxEvent) → Emits (handler event))
      → (handled : Bool) (event : OutboxEvent) → handled ≡ is_work event
      → (s t : Session) (a : Option String) → process_by limits handler handled event s ≡ (ok a, t)
      → Processed event s.working.outbox t.working.outbox × (t.committed ≡ t.working)
  unfolding process_by
  process_by-ok quiet true event e s t a h =
      let (summary, first, d) =
        after_handler-ok event (handler event s).0 (handler event s).1 t a h in
      (
        record {
          mid = (handler event s).1.working.outbox;
          now = d.now;
          follows =
              (quiet event).at s (handler event s).1 summary (λ i. (first i, (handler event s).1));
          calm = λ idle. ground (arith, e, idle);
          rows = d.rows;
        },
        d.durable,
      )
  process_by-ok quiet false event e s t a h =
      let (u, s', done, last) = >>-ok (complete_event event) (pure none) s t h in
      let (_, same) = pure-ok none a s' t last in
      let d = complete_event-ok event s t (done ∙ λ i. (ok tt, same i)) in
      (
        record {
          mid = s.working.outbox;
          now = d.now;
          follows = Follows-refl s.working.outbox;
          calm = λ idle. refl;
          rows = d.rows;
        },
        d.durable,
      )

  pub process_event-ok :
      ((event : OutboxEvent) → Emits (handler event))
      → (event : OutboxEvent) (s t : Session) (a : Option String)
      → process_event limits handler event s ≡ (ok a, t)
      → Processed event s.working.outbox t.working.outbox × (t.committed ≡ t.working)
  unfolding process_event
  process_event-ok quiet event s t a h =
      process_by-ok quiet (is_handled event.event_type) event refl s t a h

  counted_deferred : (a : Option String) (q : Progress) → (counted a q).deferred ≡ q.deferred
  counted_deferred none q = refl
  counted_deferred (some x) q = refl

  after_event-ok :
      (r : Result (Option String)) (rest : Session → Progress × Session) (s t : Session)
      (q : Progress)
      → after_event limits handler r rest s ≡ (q, t)
      → q.deferred ≡ false
      → (a : Option String) × (q' : Progress) × (r ≡ ok a)
        × (rest s ≡ (q', t))
        × (q'.deferred ≡ false)
  after_event-ok (err e) rest s t q h calm = ground (arith, h, calm)
  after_event-ok (ok a) rest s t q h calm = (
    a,
    (rest s).0,
    refl,
    λ i. ((rest s).0, (h i).1),
    sym (counted_deferred a (rest s).0) ∙ (ap (λ x. x.0.deferred) h ∙ calm),
  )

  -- The first event of a batch that went through, and the rest.
  pub batch_step :
      (event : OutboxEvent) (events : List OutboxEvent) (s t : Session) (q : Progress)
      → process_batch limits handler (event ∷ events) s ≡ (q, t)
      → q.deferred ≡ false
      → (a : Option String) × (s' : Session) × (q' : Progress) × (process_event limits handler event
            s
          ≡ (ok a, s'))
        × (process_batch limits handler events s' ≡ (q', t))
        × (q'.deferred ≡ false)
  unfolding process_batch
  batch_step event events s t q h calm =
      let x = process_event limits handler event s in
      let (a, q', e, rest, calm') =
        after_event-ok x.0 (process_batch limits handler events) x.1 t q h calm in
      (a, x.1, q', λ i. (e i, x.1), rest, calm')

  module _ (quiet : (event : OutboxEvent) → Emits (handler event)) where
    -- The count of a test that no delivered row and no follow-up row passes does not grow.
    pub batch_count :
        (p : OutboxEvent → Bool) (events : List OutboxEvent)
        → ((event : OutboxEvent) → Memᴰ event events → Counted event p)
        → (s t : Session) (q : Progress) → process_batch limits handler events s ≡ (q, t)
        → q.deferred ≡ false
        → count p t.working.outbox ≤ count p s.working.outbox
    unfolding process_batch
    batch_count p [] c s t q h calm = omega (arith, ap (λ x. count p x.1.working.outbox) h)
    batch_count p (event ∷ events) c s t q h calm =
        let (a, s', q', first, rest, calm') = batch_step event events s t q h calm in
        let (d, _) = process_event-ok quiet event s s' a first in
        omega (
          arith,
          Processed-count (c event (Memᴰ.head refl)) d,
          batch_count p events (λ x m. c x (Memᴰ.tail m)) s' t q' rest calm',
        )

    -- No row of an event of the batch passes such a test in the end.
    pub batch_gone :
        (p : OutboxEvent → Bool) (events : List OutboxEvent)
        → ((event : OutboxEvent) → Memᴰ event events → Counted event p)
        → (event : OutboxEvent) → Memᴰ event events
        → (s t : Session) (q : Progress) → process_batch limits handler events s ≡ (q, t)
        → q.deferred ≡ false
        → count (λ x. p x && has_event_id event.id x) t.working.outbox ≡ 0
    batch_gone p [] c event here s t q h calm = elim here [ ]
    batch_gone p (x ∷ xs) c event here s t q h calm =
        let (a, s', q', first, rest, calm') = batch_step x xs s t q h calm in
        let (d, _) = process_event-ok quiet x s s' a first in
        elim (Memᴰ.cases_cons here) [
          | inl e ↦
              let narrow : (y : OutboxEvent)
                  → Memᴰ y xs
                  → Counted y (λ z. p z && has_event_id x.id z) =
                λ y m. Counted-narrow y p (has_event_id x.id) (c y (Memᴰ.tail m)) in
              ap (λ y. count (λ z. p z && has_event_id y.id z) t.working.outbox) e
              ∙ omega (
                arith,
                Processed-gone (c x (Memᴰ.head refl)) d,
                batch_count (λ z. p z && has_event_id x.id z) xs narrow s' t q' rest calm',
              )
          | inr m ↦ batch_gone p xs (λ y k. c y (Memᴰ.tail k)) event m s' t q' rest calm'
        ]

    -- The count falls, where the batch has a row that passes the test.
    pub batch_falls :
        (p : OutboxEvent → Bool) (events : List OutboxEvent)
        → ((event : OutboxEvent) → Memᴰ event events → Counted event p)
        → (event : OutboxEvent) → Memᴰ event events
        → (s t : Session) (q : Progress) → Memᴰ event s.working.outbox
        → p event ≡ true
        → process_batch limits handler events s ≡ (q, t)
        → q.deferred ≡ false
        → count p t.working.outbox < count p s.working.outbox
    batch_falls p events c event here s t q there passes h calm =
        let own = has_event_id event.id in
        let other : OutboxEvent → Bool = λ x. p x && not (own x) in
        let found =
          count_mem (λ x. p x && own x) s.working.outbox event there
            (ground (arith, passes, (eq_iff event.id event.id).1 refl)) in
        omega (
          arith,
          found,
          batch_gone p events c event here s t q h calm,
          batch_count other events (λ x m. Counted-narrow x p (λ y. not (own y)) (c x m)) s t q h
              calm,
          count-split p own s.working.outbox,
          count-split p own t.working.outbox,
        )

    -- A batch that went through has committed all that it did.
    pub batch_durable :
        (events : List OutboxEvent) (s t : Session) (q : Progress)
        → s.committed ≡ s.working
        → process_batch limits handler events s ≡ (q, t)
        → q.deferred ≡ false
        → t.committed ≡ t.working
    unfolding process_batch
    batch_durable [] s t q e h calm = ground (arith, h, e)
    batch_durable (event ∷ events) s t q e h calm =
        let (a, s', q', first, rest, calm') = batch_step event events s t q h calm in
        let (_, durable) = process_event-ok quiet event s s' a first in
        batch_durable events s' t q' durable rest calm'
