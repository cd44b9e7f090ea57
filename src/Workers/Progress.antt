-- ===== src/Workers/Progress.antt =====
-- What the workers alone get done.
use oiwest_core.Common.{
  if_false, ◌%◌, ◌^◌, ℕ, ◌+◌, ◌<◌, ◌≡◌, refl, sym, ap, ◌∙◌, inl, inr, false, List, [], ◌∷◌, ◌++◌,
  length, length-append, append_assoc, append-nil, ltb, ltb→lt, Bool-cases, arith,
}
use oiwest_core.Workers.{Running, Pool, int32_lt, take_task, finish_task, time_out, resize_store}
use oiwest_core.Workers.Steps.{Work, takes, finishes, waits, leaves, Works, still, on}
use oiwest_core.Workers.Invariant.{IsValid}

-- The goroutines of a pool.
abbrev pub goroutines : Pool → ℕ
goroutines p = p.waiting + length p.running

Works_trans : {p q r : Pool} → Works p q → Works q r → Works p r
Works_trans w still = w
Works_trans w (on u s) = on (Works_trans w u) s

-- Some worker waits, at once or after it is done with its task.
ready :
    (p : Pool)
    → 0 < goroutines p
    → (q : Pool) × Works p q × (0 < q.waiting) × (q.tasks ≡ p.tasks) × (q.started ≡ p.started)
unfolding finish_task
ready p h = elim (Bool-cases (ltb 0 p.waiting)) [
  | inl now ↦ (p, still, ltb→lt 0 p.waiting now, refl, refl)
  | inr none_ ↦ after_task p.running refl
]
  where
    after_task :
        (l : List Running)
        → p.running ≡ l
        → (q : Pool) × Works p q × (0 < q.waiting) × (q.tasks ≡ p.tasks) × (q.started ≡ p.started)
    after_task [] e = (p, still, omega (arith, h, ap length e), refl, refl)
    after_task (r ∷ rest) e = (
      finish_task [] r rest false p,
      on still (finishes [] rest r false e),
      omega arith,
      refl,
      refl,
    )

taken :
    (tasks : List ℕ) (p : Pool)
    → p.tasks ≡ tasks
    → 0 < goroutines p
    → (q : Pool) × Works p q × (q.tasks ≡ []) × (q.started ≡ p.started ++ tasks)
unfolding take_task
taken [] p e h = (p, still, e, sym (append-nil p.started))
taken (t ∷ ts) p e h =
    let (p1, w1, some_, same, begun) = ready p h in
    let p2 = take_task t ts p1 in
    let n = length-append p1.running (record { task = t; task_id = p1.submitted + 1 } ∷ []) in
    let (q, w2, done, all) = taken ts p2 refl (omega (arith, n, some_)) in
    (
      q,
      Works_trans (on w1 (takes some_ (same ∙ e))) w2,
      done,
      all ∙ append_assoc p1.started (t ∷ []) ts ∙ ap (λ r. r ++ (t ∷ ts)) begun,
    )

-- As long as a valid pool has one goroutine, its workers can take every task that was ever queued,
-- in the order in which they were queued, and leave none in the queue.
pub works_off :
    (p : Pool)
    → IsValid p
    → 0 < goroutines p
    → (q : Pool) × Works p q × (q.tasks ≡ []) × (q.started ≡ p.accepted)
works_off p v h =
    let (q, w, done, all) = taken p.tasks p refl h in (q, w, done, all ∙ sym v.ordered)

-- No idle worker leaves a pool that counts no more workers than its minimum.
abbrev Settled : Pool → Type 0
Settled p = (int32_lt p.min_workers p.num_workers ≡ false) × (p.leaving ≡ 0)

one_keeps : {p q : Pool} → Settled p → Work p q → (goroutines q ≡ goroutines p) × Settled q
unfolding take_task finish_task time_out
one_keeps {p} (few, none_) (takes {task} h e) = (
  omega
      (arith, length-append p.running (record { task = task; task_id = p.submitted + 1 } ∷ []), h),
  (few, none_),
)
one_keeps {p} (few, none_) (finishes before after r failed e) = (
  omega (arith, ap length e, length-append before (r ∷ after), length-append before after),
  (few, none_),
)
one_keeps {p} (few, none_) (waits h) = rw few (refl, (few, none_))
one_keeps {p} (few, none_) (leaves h) = absurd (omega (arith, h, none_))

all_keep : {p q : Pool} → Settled p → Works p q → (goroutines q ≡ goroutines p) × Settled q
all_keep few still = (refl, few)
all_keep few (on w s) =
    let (n, few') = all_keep few w in let (n', few'') = one_keeps few' s in (n' ∙ n, few'')

-- A pool that no idle worker is leaving and that is resized to fewer workers, and not more than its minimum,
-- keeps all its goroutines however long its workers run.
pub resize-goroutines :
    {q : Pool} (old n : ℕ) (p : Pool)
    → int32_lt old n ≡ false
    → int32_lt p.min_workers (n % 2 ^ 32) ≡ false
    → p.leaving ≡ 0
    → Works (resize_store old n p) q
    → goroutines q ≡ goroutines p
unfolding resize_store
resize-goroutines old n p down few none_ w =
    let (g, _) = all_keep (few, none_) w in
    g ∙ ap (λ k. p.waiting + k + length p.running) {y = 0} (if_false _ down) ∙ omega arith
