-- ===== src/Redis/TaskQueue/Flow.antt =====
-- The two lists of the task queue as one first-in first-out queue and a set of claimed tasks.
use mathlib.Core.List.{reverse-append, append_assoc, append-nil}
use task_orchestrator_engine.Prelude.{
  ℕ, suc, ◌+◌, ◌<◌, ◌≡◌, refl, sym, ap, ◌∙◌, ◌⊎◌, inl, inr, none, some, List, [], ◌∷◌, ◌++◌,
  reverse, arith, ◌==◌, if◌then◌else◌, reverse-concat, List-cases,
}
use task_orchestrator_engine.Types.{Ident}
use task_orchestrator_engine.Redis.Server.{
  Server, task_queue, task_processing, split_last, remove_one,
}
use task_orchestrator_engine.Redis.TaskQueue.{enqueue, enqueue_batch, claim, requeue}

abbrev pub count : Ident → List Ident → ℕ
count a [] = 0
count a (x ∷ xs) = if a == x then suc (count a xs) else count a xs

split_last_lem {ℓ} :
    {A : Type ℓ} (x : A) (xs : List A) → x ∷ xs ≡ (split_last x xs).0 ++ (split_last x xs).1 ∷ []
split_last_lem x [] = refl
split_last_lem x (y ∷ ys) = ap (λ l. x ∷ l) (split_last_lem y ys)

count-append : (a : Ident) (xs ys : List Ident) → count a (xs ++ ys) ≡ count a xs + count a ys
count-append a [] ys = omega arith
count-append a (x ∷ xs) ys = ground (arith, count-append a xs ys)

count-reverse : (a : Ident) (xs : List Ident) → count a (reverse xs) ≡ count a xs
count-reverse a [] = refl
count-reverse a (x ∷ xs) =
    rw (reverse-append (x ∷ []) xs)
      (ground (arith, count-append a (reverse xs) (x ∷ []), count-reverse a xs))

count-remove_one :
    (a v : Ident) (xs : List Ident)
    → 0 < count v xs
    → count a (remove_one v xs) + (if a == v then 1 else 0) ≡ count a xs
count-remove_one a v [] h = absurd (omega arith)
count-remove_one a v (x ∷ xs) h = ground (arith, count-remove_one a v xs)

module _ (redis : Server) where
  open redis use {
    Store, entries, entries-lpush, entries-lrem, brpoplpush, reply-brpoplpush, queue-brpoplpush,
    processing-brpoplpush,
  }

  -- The waiting tasks, oldest first.
  abbrev pub waiting : Store → List Ident
  waiting s = reverse (entries s task_queue)

  abbrev pub claimed : Store → List Ident
  claimed s = entries s task_processing

  -- How often a task stands in the two lists.
  abbrev pub total : Ident → Store → ℕ
  total a s = count a (entries s task_queue) + count a (claimed s)

  pub waiting-enqueue :
      (id : Ident) (s : Store) → waiting (enqueue redis id s) ≡ waiting s ++ id ∷ []
  unfolding enqueue
  waiting-enqueue id s =
      rw (entries-lpush task_queue task_queue id s)
        (reverse-append (id ∷ []) (entries s task_queue))

  -- A batch joins the waiting tasks behind them, in its own order, and touches no claimed task.
  pub waiting-enqueue_batch :
      (ids : List Ident) (s : Store)
      → (waiting (enqueue_batch redis ids s) ≡ waiting s ++ ids)
        × (claimed (enqueue_batch redis ids s) ≡ claimed s)
  unfolding enqueue_batch enqueue
  waiting-enqueue_batch [] s = (sym (append-nil (waiting s)), refl)
  waiting-enqueue_batch (id ∷ ids) s =
      let (later, kept) = waiting-enqueue_batch ids (enqueue redis id s) in
      (
        later ∙ ap (λ l. l ++ ids) (waiting-enqueue id s) ∙ append_assoc (waiting s) (id ∷ []) ids,
        kept ∙ entries-lpush task_queue task_processing id s,
      )

  -- A claim on an empty queue gets nothing and leaves both lists as they are; any other claim moves
  -- the task that waits longest to the front of the claimed ones.
  pub claim-oldest :
      (s : Store)
      → (((claim redis s).0 ≡ none)
          × (waiting s ≡ [])
          × (waiting (claim redis s).1 ≡ [])
          × (claimed (claim redis s).1 ≡ claimed s))
        ⊎ ((id : Ident) × ((claim redis s).0 ≡ some id)
            × (waiting s ≡ id ∷ waiting (claim redis s).1)
            × (claimed (claim redis s).1 ≡ id ∷ claimed s))
  unfolding claim
  claim-oldest s = elim (List-cases (entries s task_queue)) [
    | inl empty ↦ inl (
      rw (reply-brpoplpush s, empty) refl,
      rw empty refl,
      rw (queue-brpoplpush s, empty) refl,
      rw (processing-brpoplpush s, empty) refl,
    )
    | inr (x, xs, e) ↦
        let id = (split_last x xs).1 in
        let front = (split_last x xs).0 in
        inr (
          id,
          rw (reply-brpoplpush s, e) refl,
          rw (queue-brpoplpush s, e) (ap reverse (split_last_lem x xs) ∙ reverse-concat id front),
          rw (processing-brpoplpush s, e) refl,
        )
  ]

  total-waiting : (a : Ident) (s : Store) → total a s ≡ count a (waiting s) + count a (claimed s)
  total-waiting a s = omega (arith, count-reverse a (entries s task_queue))

  -- A claim changes the total of no task.
  pub claim-total : (a : Ident) (s : Store) → total a (claim redis s).1 ≡ total a s
  claim-total a s = elim (claim-oldest s) [
    | inl (_, before, after, same) ↦ omega (
      arith,
      total-waiting a s,
      total-waiting a (claim redis s).1,
      ap (count a) before,
      ap (count a) after,
      ap (count a) same,
    )
    | inr (id, _, before, after) ↦ ground (
      arith,
      total-waiting a s,
      total-waiting a (claim redis s).1,
      ap (count a) before,
      ap (count a) after,
    )
  ]

  -- A claimed task that is put back is lost from neither list and doubled in neither; it goes
  -- behind all waiting tasks.
  pub requeue-total :
      (id : Ident) (s : Store)
      → 0 < count id (claimed s)
      → (waiting (requeue redis id s) ≡ waiting s ++ id ∷ [])
        × ((a : Ident) → total a (requeue redis id s) ≡ total a s)
  unfolding requeue
  requeue-total id s h =
      let t = redis.lrem task_processing id s in
      let kept = entries-lrem task_processing task_queue id s in
      let removed = entries-lrem task_processing task_processing id s in
      (
        rw (entries-lpush task_queue task_queue id t, kept)
            (reverse-append (id ∷ []) (entries s task_queue)),
        λ a. ground (
          arith,
          ap (count a) (entries-lpush task_queue task_queue id t),
          ap (count a) (entries-lpush task_queue task_processing id t),
          ap (count a) kept,
          ap (count a) removed,
          count-remove_one a id (claimed s),
        ),
      )
