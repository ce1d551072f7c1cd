-- ===== src/Workers/Outbox/Drain.antt =====
-- The drain of the queue ends (`OutboxOrchestrator.run_once` of
-- src/vulnops/workers/orchestration.py).
use vulnops_hub.Prelude.{
  ℕ, zero, suc, ◌+◌, ◌≤◌, ◌<◌, String, Bool, true, false, ◌&&◌, some, List, [], ◌∷◌, any, select,
  take, ◌≡◌, refl, subst, sym, ap, ◌∙◌, ◌⊎◌, inl, inr, Bool-cases, arith, count, select_mem,
  take_mem, any→mem,
}
use mathlib.Core.List.{Memᴰ}
use vulnops_hub.Db.{OutboxEvent}
use vulnops_hub.Session.{Session, Action, ok, run}
use vulnops_hub.Workers.Outbox.{
  Limits, Progress, idle, is_claimable, claim_events, process_batch, after_claim, after_batch,
  added, closed_session, drain, run_once,
}
use vulnops_hub.Workers.Outbox.Emits.{is_work, Emits}
use vulnops_hub.Workers.Outbox.Counts.{Counted}
use vulnops_hub.Workers.Outbox.Batch.{batch_count, batch_falls, batch_durable}

-- What a drain that ended leaves: unless a failure has deferred the rest, no row that the worker
-- may claim.
pub record Drained (limits : Limits) (p : Progress) (t : Session) : Type 0 where
  pub empty :
      p.deferred ≡ false
      → 1 ≤ limits.batch_size
      → any (is_claimable limits.max_attempts) t.working.outbox ≡ false
  pub durable : p.deferred ≡ false → t.committed ≡ t.working

no_work :
    (p : OutboxEvent → Bool) (xs : List OutboxEvent) (x : OutboxEvent)
    → any p xs ≡ false
    → Memᴰ x xs
    → p x ≡ false
no_work p [] x unmet m = elim m [ ]
no_work p (y ∷ ys) x unmet (Memᴰ.head e) = subst (λ z. p z ≡ false) (sym e) (ground (arith, unmet))
no_work p (y ∷ ys) x unmet (Memᴰ.tail m) = no_work p ys x (ground (arith, unmet)) m

module _ (limits : Limits) (handler : OutboxEvent → Action String)
    (quiet : (event : OutboxEvent) → Emits (handler event)) where
  abbrev claimable : OutboxEvent → Bool
  claimable e = is_claimable limits.max_attempts e

  -- claimable rows that a handler takes
  abbrev work : OutboxEvent → Bool
  work e = is_work e && claimable e

  abbrev claimed : Session → List OutboxEvent
  claimed s = take limits.batch_size (select claimable s.working.outbox)

  abbrev Ends : Session → Type 0
  Ends s =
      (fuel : ℕ) × (p : Progress) × (t : Session) × (drain limits handler fuel s ≡ some (p, t))
      × Drained limits p t

  claimed_mem :
      (s : Session) (x : OutboxEvent)
      → Memᴰ x (claimed s)
      → Memᴰ x s.working.outbox × (claimable x ≡ true)
  claimed_mem s x m = select_mem claimable s.working.outbox x (take_mem limits.batch_size _ x m)

  Counted-work : (event : OutboxEvent) → Counted event work
  Counted-work event = record {
    gone = λ now x. ground arith;
    quiet = inr (λ x unmet. ground (arith, unmet));
  }

  Counted-claimable : (event : OutboxEvent) → is_work event ≡ false → Counted event claimable
  Counted-claimable event calm = record { gone = λ now x. ground arith; quiet = inl calm }

  -- An empty claim ends the drain, and then nothing is left.
  nothing_claimed :
      (n : ℕ) (xs : List OutboxEvent)
      → take n (select claimable xs) ≡ []
      → 1 ≤ n
      → any claimable xs ≡ false
  nothing_claimed zero xs e one = ground (arith, e, one)
  nothing_claimed (suc n) [] e one = refl
  nothing_claimed (suc n) (x ∷ xs) e one = ground (arith, nothing_claimed (suc n) xs)

  drain_claim :
      (fuel : ℕ) (s : Session)
      → drain limits handler (suc fuel) s
        ≡ after_claim limits handler (ok (claimed s)) (drain limits handler fuel) s
  unfolding drain claim_events run
  drain_claim fuel s = refl

  -- The rows left after a batch are fewer, in one of two ways.
  abbrev Fewer : Session → Session → Type 0
  Fewer t s =
      (count work t.working.outbox < count work s.working.outbox)
      ⊎ ((count work t.working.outbox ≤ count work s.working.outbox)
          × (count claimable t.working.outbox < count claimable s.working.outbox))

  batch-Fewer :
      (x : OutboxEvent) (xs : List OutboxEvent) (s t : Session) (q : Progress)
      → claimed s ≡ x ∷ xs
      → process_batch limits handler (x ∷ xs) s ≡ (q, t)
      → q.deferred ≡ false
      → Fewer t s
  batch-Fewer x xs s t q e h calm =
      let member : (y : OutboxEvent) → Memᴰ y (x ∷ xs) → Memᴰ y (claimed s) =
        λ y m. subst (λ ys. Memᴰ y ys) (sym e) m in
      elim (Bool-cases (any is_work (x ∷ xs))) [
        | inl busy ↦
            let (y, m, works) = any→mem is_work (x ∷ xs) busy in
            let (there, free) = claimed_mem s y (member y m) in
            inl (
              batch_falls limits handler quiet work (x ∷ xs) (λ z _. Counted-work z) y m s t q there
                (ground (arith, works, free)) h calm)
        | inr rest ↦
            let (there, free) = claimed_mem s x (member x (Memᴰ.head refl)) in
            inr (
              batch_count limits handler quiet work (x ∷ xs) (λ z _. Counted-work z) s t q h calm,
              batch_falls limits handler quiet claimable (x ∷ xs)
                  (λ z m. Counted-claimable z (no_work is_work (x ∷ xs) z rest m)) x
                  (Memᴰ.head refl) s t q there free h calm,
            )
      ]

  Ends-by :
      (b : Bool) (s t : Session) (n : ℕ)
      → ((fuel : ℕ)
          → drain limits handler (suc fuel) s
            ≡ after_batch limits handler b n (drain limits handler fuel) t)
      → (b ≡ false → Ends t)
      → Ends s
  Ends-by true s t n e later = (1, _, t, e 0, record { empty = λ calm. cc; durable = λ calm. cc })
  Ends-by false s t n e later =
      let (fuel, p, u, run, d) = later refl in
      (
        suc fuel,
        record p { delivered = n + p.delivered },
        u,
        e fuel ∙ ap (added limits handler n) run,
        record { empty = d.empty; durable = d.durable },
      )

  -- One round of the loop, where every session with fewer rows ends.
  Ends-round :
      (s : Session) (batch : List OutboxEvent)
      → claimed s ≡ batch
      → s.committed ≡ s.working
      → ((t : Session) → Fewer t s → t.committed ≡ t.working → Ends t)
      → Ends s
  Ends-round s [] e clean later = (
    1,
    idle,
    s,
    drain_claim 0 s ∙ ap (λ b. after_claim limits handler (ok b) (drain limits handler 0) s) e,
    record {
      empty = λ calm one. nothing_claimed limits.batch_size s.working.outbox e one;
      durable = λ calm. clean;
    },
  )
  Ends-round s (x ∷ xs) e clean later =
      let r = process_batch limits handler (x ∷ xs) s in
      Ends-by r.0.deferred s r.1 r.0.delivered
        (λ fuel.
          drain_claim fuel s
          ∙ ap (λ b. after_claim limits handler (ok b) (drain limits handler fuel) s) e)
        (λ calm.
          later r.1 (batch-Fewer x xs s r.1 r.0 e refl calm)
            (batch_durable limits handler quiet (x ∷ xs) s r.1 r.0 clean refl calm))

  ends :
      (h u : ℕ) (s : Session)
      → count work s.working.outbox < h
      → count claimable s.working.outbox < u
      → s.committed ≡ s.working
      → Ends s
  ends zero u s lh lu clean = absurd (omega (arith, lh))
  ends (suc h) zero s lh lu clean = absurd (omega (arith, lu))
  ends (suc h) (suc u) s lh lu clean = Ends-round s (claimed s) refl clean (λ t fewer clean'.
      elim fewer [
        | inl less ↦
            ends h (suc (count claimable t.working.outbox)) t (omega (arith, less, lh))
              (omega arith) clean'
        | inr (same, less) ↦
            ends (suc h) u t (omega (arith, same, lh)) (omega (arith, less, lu)) clean'
      ])

  -- `run_once` ends, and leaves nothing that a worker may claim, unless a failure has deferred it.
  pub run_once-ends :
      (s : Session)
      → (fuel : ℕ) × (p : Progress) × (t : Session) × (run_once limits handler fuel s ≡ some (p, t))
        × (p.deferred ≡ false → 1 ≤ limits.batch_size → any claimable t.committed.outbox ≡ false)
  unfolding run_once
  run_once-ends s =
      let start : Session = record s { working = s.committed } in
      let (fuel, p, t, run, d) =
        ends (suc (count work s.committed.outbox)) (suc (count claimable s.committed.outbox)) start
          (omega arith) (omega arith) refl in
      (
        fuel,
        p,
        record t { working = t.committed },
        ap (closed_session limits handler) run,
        λ calm one. ap (λ db. any claimable db.outbox) (d.durable calm) ∙ d.empty calm one,
      )
