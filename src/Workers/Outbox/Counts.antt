-- ===== src/Workers/Outbox/Counts.antt =====
-- How many rows of the outbox pass a test, and what a delivery makes of that number
-- (src/vulnops/workers/orchestration.py).
use vulnops_hub.Prelude.{
  ℕ, ◌≤◌, Bool, false, ◌&&◌, List, update, ◌≡◌, subst, ap, sym, ◌∙◌, ◌⊎◌, inl, inr, arith, count,
  count-append, count_narrow, count-update, count-update_gone,
}
use vulnops_hub.Db.{OutboxEvent}
use vulnops_hub.Workers.Outbox.{has_event_id, delivered_row}
use vulnops_hub.Workers.Outbox.Emits.{is_work, Follows}

-- What an event that was processed has made of the rows: the handler's follow-up rows are added,
-- none for an event that no handler takes, and the rows of the event are delivered.
pub record Processed (event : OutboxEvent) (before after : List OutboxEvent) : Type 0 where
  pub mid : List OutboxEvent
  pub now : ℕ
  pub follows : Follows before mid
  pub calm : is_work event ≡ false → mid ≡ before
  pub rows : after ≡ update (has_event_id event.id) (delivered_row now) mid

-- A test that no delivered row passes, and that no follow-up row of the event passes.
pub record Counted (event : OutboxEvent) (p : OutboxEvent → Bool) : Type 0 where
  pub gone : (now : ℕ) (x : OutboxEvent) → p (delivered_row now x) ≡ false
  pub quiet : (is_work event ≡ false) ⊎ ((x : OutboxEvent) → is_work x ≡ false → p x ≡ false)

Follows-count :
    (p : OutboxEvent → Bool) (before mid : List OutboxEvent)
    → Follows before mid
    → ((x : OutboxEvent) → is_work x ≡ false → p x ≡ false)
    → count p mid ≤ count p before
Follows-count p before mid (new, e, none) narrow =
    subst (λ rows. count p rows ≤ count p before) (sym e)
      (omega (arith, count-append p before new, count_narrow p is_work new narrow none))

mid_count :
    {event : OutboxEvent} {p : OutboxEvent → Bool} {before after : List OutboxEvent}
    → Counted event p
    → (d : Processed event before after) → count p d.mid ≤ count p before
mid_count {event} {p} {before} c d = elim c.quiet [
  | inl calm ↦ omega (arith, ap (count p) (d.calm calm))
  | inr narrow ↦ Follows-count p before d.mid d.follows narrow
]

pub Processed-count :
    {event : OutboxEvent} {p : OutboxEvent → Bool} {before after : List OutboxEvent}
    → Counted event p
    → Processed event before after
    → count p after ≤ count p before
Processed-count {event} {p} {before} {after} c d = omega (
  arith,
  ap (count p) d.rows,
  count-update p (has_event_id event.id) (delivered_row d.now) d.mid (c.gone d.now),
  mid_count c d,
)

pub Processed-gone :
    {event : OutboxEvent} {p : OutboxEvent → Bool} {before after : List OutboxEvent}
    → Counted event p
    → Processed event before after
    → count (λ x. p x && has_event_id event.id x) after ≡ 0
Processed-gone {event} {p} c d =
    ap (count (λ x. p x && has_event_id event.id x)) d.rows
    ∙ count-update_gone p (has_event_id event.id) (delivered_row d.now) d.mid (c.gone d.now)

-- A narrower test counts as well.
pub Counted-narrow :
    (event : OutboxEvent) (p q : OutboxEvent → Bool)
    → Counted event p
    → Counted event (λ x. p x && q x)
Counted-narrow event p q c = record {
  gone = λ now x. ground (arith, c.gone now x);
  quiet = elim c.quiet [
    | inl calm ↦ inl calm
    | inr narrow ↦ inr (λ x idle. ground (arith, narrow x idle))
  ];
}
