-- ===== src/Workers/Schedule.antt =====
-- The tasks of a scheduler in the queue of its pool.
use oiwest_core.Common.{
  Bool-cases, ℕ, ◌+◌, ◌≤◌, ◌<◌, ◌≡◌, refl, sym, ap, ◌∙◌, inl, inr, ◌⊎◌, true, false, List, [], ◌∷◌,
  ◌++◌, length, length-append, append_assoc, append-nil, arith, if_true, if_false, if◌then◌else◌,
  if_both, lt→ltb,
}
use oiwest_core.Workers.{Pool, queued, is_crowded, maybe_scale_up, done, submit, all, flush}

-- What a Submit does to the pool before its send.
abbrev looked : Pool → Pool
looked p = if is_crowded p then maybe_scale_up p else p

abbrev AlikeTo : Pool → Pool → Type 0
AlikeTo p q =
    (q.tasks ≡ p.tasks)
    × (q.accepted ≡ p.accepted)
    × (q.capacity ≡ p.capacity)
    × (q.stopped ≡ p.stopped)

scaled : (p : Pool) → AlikeTo p (maybe_scale_up p)
unfolding maybe_scale_up
scaled p = if_both (AlikeTo p) _ (refl, refl, refl, refl) (refl, refl, refl, refl)

looked_lem : (p : Pool) → AlikeTo p (looked p)
looked_lem p = if_both (AlikeTo p) (is_crowded p) (scaled p) (refl, refl, refl, refl)

-- A task that finds room.
accepted :
    (t : ℕ) (p : Pool)
    → p.stopped ≡ false
    → length p.tasks < p.capacity
    → (q : Pool) × (submit t p ≡ done q)
      × (q.tasks ≡ p.tasks ++ t ∷ [])
      × (q.accepted ≡ p.accepted ++ t ∷ [])
      × (q.capacity ≡ p.capacity)
      × (q.stopped ≡ p.stopped)
unfolding submit
accepted t p s room =
    let (tasks, all_, c, st) = looked_lem p in
    (
      queued t (looked p),
      if_false _ s ∙ if_true _ (lt→ltb (length p.tasks) p.capacity room),
      ap (λ r. r ++ t ∷ []) tasks,
      ap (λ r. r ++ t ∷ []) all_,
      c,
      st,
    )

-- Flush of a pool that is not stopped and has room for all pending tasks queues them in their order behind
-- the tasks that it has.
flush_room :
    (ts : List ℕ) (p : Pool)
    → p.stopped ≡ false
    → length p.tasks + length ts ≤ p.capacity
    → (q : Pool) × (flush ts p ≡ all q)
      × (q.tasks ≡ p.tasks ++ ts)
      × (q.accepted ≡ p.accepted ++ ts)
unfolding flush
flush_room [] p s room = (p, refl, sym (append-nil p.tasks), sym (append-nil p.accepted))
flush_room (t ∷ ts) p s room =
    let (p1, made, tasks, all_, c, st) = accepted t p s (omega (arith, room)) in
    let n = ap length tasks ∙ length-append p.tasks (t ∷ []) in
    let (q, e, tasks', all') = flush_room ts p1 (st ∙ s) (omega (arith, n, c, room)) in
    (
      q,
      rw (made, flush) e,
      tasks' ∙ ap (λ r. r ++ ts) tasks ∙ append_assoc p.tasks (t ∷ []) ts,
      all' ∙ ap (λ r. r ++ ts) all_ ∙ append_assoc p.accepted (t ∷ []) ts,
    )

submit_stopped : (t : ℕ) (p : Pool) → p.stopped ≡ true → submit t p ≡ done p
unfolding submit
submit_stopped t p s = if_true _ s

flush_stopped : (ts : List ℕ) (p : Pool) → p.stopped ≡ true → flush ts p ≡ all p
unfolding flush
flush_stopped [] p s = refl
flush_stopped (t ∷ ts) p s = rw (submit_stopped t p s, flush) (flush_stopped ts p s)

-- Flush on a pool that has room for the pending tasks queues them in their order behind those that
-- it has; on a pool that is stopped it drops them all, and the pool stays as it is.
pub flush_lem :
    (ts : List ℕ) (p : Pool)
    → length p.tasks + length ts ≤ p.capacity
    → ((p.stopped ≡ true) × (flush ts p ≡ all p))
      ⊎ ((p.stopped ≡ false)
          × ((q : Pool) × (flush ts p ≡ all q)
              × (q.tasks ≡ p.tasks ++ ts)
              × (q.accepted ≡ p.accepted ++ ts)))
flush_lem ts p room = elim (Bool-cases p.stopped) [
  | inl yes_ ↦ inl (yes_, flush_stopped ts p yes_)
  | inr no_ ↦ inr (no_, flush_room ts p no_ room)
]
