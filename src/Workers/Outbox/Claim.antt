-- ===== src/Workers/Outbox/Claim.antt =====
-- The claims of the outbox (`claim_events` of src/vulnops/workers/orchestration.py).
use vulnops_hub.Prelude.{
  ℕ, zero, suc, ◌≤◌, ◌<◌, Bool, true, none, List, [], ◌∷◌, ◌++◌, select, take, length, All,
  if-holds, ◌≡◌, ◌↔◌, ◌⊎◌, inl, inr, refl, sym, ap, subst, arith, Option-cases,
}
use mathlib.Core.List.{Memᴰ}
use vulnops_hub.Db.{OutboxEvent}
use vulnops_hub.Session.{Session, ok, run}
use vulnops_hub.Workers.Outbox.{is_claimable, claim_events}

module _ {ℓ} {A : Type ℓ} where
  length-take : (n : ℕ) (xs : List A) → length (take n xs) ≤ n
  length-take zero xs = omega arith
  length-take (suc n) [] = omega arith
  length-take (suc n) (x ∷ xs) = omega (arith, length-take n xs)

  All-take : (P : A → Type 0) (n : ℕ) (xs : List A) → All P xs → All P (take n xs)
  All-take P zero xs h = tt
  All-take P (suc n) [] h = tt
  All-take P (suc n) (x ∷ xs) (h, hs) = (h, All-take P n xs hs)

  All-select :
      {P : A → Type 0} (p : A → Bool)
      → ((x : A) → p x ≡ true → P x)
      → (xs : List A) → All P (select p xs)
  All-select p holds [] = tt
  All-select {P} p holds (x ∷ xs) =
      if-holds (All P) (p x) (λ h. (holds x h, All-select p holds xs)) (λ _. All-select p holds xs)

  -- What is left of a list after its first elements.
  abbrev drop : ℕ → List A → List A
  drop zero xs = xs
  drop (suc n) [] = []
  drop (suc n) (x ∷ xs) = drop n xs

  take-drop : (n : ℕ) (xs : List A) → xs ≡ take n xs ++ drop n xs
  take-drop zero xs = refl
  take-drop (suc n) [] = refl
  take-drop (suc n) (x ∷ xs) = ap (λ ys. x ∷ ys) (take-drop n xs)

-- An event that may be claimed: it is not delivered, and its attempts are below the cap.
abbrev pub IsFree : ℕ → OutboxEvent → Type 0
IsFree max_attempts e = (e.delivered_at ≡ none) × (e.attempts < max_attempts)

is_claimable-IsFree :
    (max_attempts : ℕ) (e : OutboxEvent)
    → (is_claimable max_attempts e ≡ true) ↔ IsFree max_attempts e
is_claimable-IsFree max_attempts e = elim (Option-cases e.delivered_at) [
  | inl absent ↦ ground (arith, absent)
  | inr (now, given) ↦ ground (arith, given)
]

-- A claim of a whole queue takes as many rows as the batch holds, or all.
length-take_full : {A : Type 0} (n : ℕ) (xs : List A) → (length (take n xs) ≡ n) ⊎ (take n xs ≡ xs)
length-take_full zero xs = inl refl
length-take_full (suc n) [] = inr refl
length-take_full (suc n) (x ∷ xs) = elim (length-take_full n xs) [
  | inl full ↦ inl (ap suc full)
  | inr whole ↦ inr (ap (λ ys. x ∷ ys) whole)
]

-- A member of a table that passes the test is selected.
mem_select :
    {A : Type 0} (p : A → Bool) (xs : List A) (x : A)
    → Memᴰ x xs
    → p x ≡ true
    → Memᴰ x (select p xs)
mem_select p [] x here h = elim here [ ]
mem_select p (y ∷ ys) x (Memᴰ.head e) h =
    if-holds (Memᴰ x) (p y) (λ _. Memᴰ.head e)
      (λ fails. ground (arith, subst (λ z. p z ≡ true) e h, fails))
mem_select p (y ∷ ys) x (Memᴰ.tail m) h =
    if-holds (Memᴰ x) (p y) (λ _. Memᴰ.tail (mem_select p ys x m h)) (λ _. mem_select p ys x m h)

-- What a claim returns: each event is free, and either the batch is full or every free event of the
-- queue is there. In the order of the queue none is passed over; a claim changes nothing.
pub record Claims (batch_size max_attempts : ℕ) (s t : Session) (events : List OutboxEvent)
    : Type 0 where
  pub unchanged : t ≡ s
  pub bounded : length events ≤ batch_size
  pub free : All (IsFree max_attempts) events
  pub maximal :
      (length events ≡ batch_size)
      ⊎ ((e : OutboxEvent) → Memᴰ e s.working.outbox → IsFree max_attempts e → Memᴰ e events)
  pub first :
      (rest : List OutboxEvent) × (select (is_claimable max_attempts) s.working.outbox
        ≡ events ++ rest)

take-maximal :
    (n max_attempts : ℕ) (outbox : List OutboxEvent)
    → (length (take n (select (is_claimable max_attempts) outbox)) ≡ n)
      ⊎ ((e : OutboxEvent)
          → Memᴰ e outbox
          → IsFree max_attempts e
          → Memᴰ e (take n (select (is_claimable max_attempts) outbox)))
take-maximal n max_attempts outbox =
    elim (length-take_full n (select (is_claimable max_attempts) outbox)) [
      | inl full ↦ inl full
      | inr whole ↦ inr (λ e m free. subst (Memᴰ e) (sym whole) (
          mem_select (is_claimable max_attempts) outbox e m
            ((is_claimable-IsFree max_attempts e).1 free)))
    ]

-- A claim changes nothing and returns no more events than the batch size. Each of them is
-- undelivered and below the cap of attempts, and unless the batch is full, every such event of
-- the outbox is among them. They are the first of the queue, in its order.
pub claim_events-Claims :
    (batch_size max_attempts : ℕ) (s : Session)
    → (events : List OutboxEvent) × (t : Session) × (claim_events batch_size max_attempts s
        ≡ (ok events, t))
      × Claims batch_size max_attempts s t events
unfolding claim_events run
claim_events-Claims batch_size max_attempts s =
    let queue = select (is_claimable max_attempts) s.working.outbox in
    (
      take batch_size queue,
      s,
      refl,
      record {
        unchanged = refl;
        bounded = length-take batch_size queue;
        free =
            All-take _ batch_size queue
              (All-select _ (λ e. (is_claimable-IsFree max_attempts e).0) s.working.outbox);
        maximal = take-maximal batch_size max_attempts s.working.outbox;
        first = (drop batch_size queue, take-drop batch_size queue);
      },
    )
