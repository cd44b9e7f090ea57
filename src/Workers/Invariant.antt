-- ===== src/Workers/Invariant.antt =====
-- What holds of a pool at any time.
use oiwest_core.Common.{
  if_both, if◌then◌else◌, ◌%◌, ◌^◌, Option, ℕ, ◌+◌, ◌-◌, ◌≤◌, ◌<◌, ◌≡◌, refl, sym, ap, ◌∙◌, inl,
  inr, Bool, true, List, [], ◌∷◌, ◌++◌, length, length-append, append_assoc, ltb, ◌==◌, Bool-cases,
  none, some, arith, min,
}
use oiwest_core.Workers.{
  Running, Pool, new_pool, int32_lt, maybe_scale_up, queued, arrive, is_crowded, look, scale, send,
  give_up, take_task, finish_task, time_out, leave, quit, resize, resize_store, stop,
}
use oiwest_core.Workers.Steps.{
  Work, takes, finishes, waits, leaves, Step, works, quits, arrives, looks, scales, sends, gives_up,
  resizes, stores, stops, Reach, here, later,
}

-- `ordered`: tasks are taken in the order in which they were queued, and none is lost.
pub record IsValid (p : Pool) : Type 0 where
  pub counted : p.active ≡ length p.running
  pub balanced : p.submitted ≡ p.completed + length p.running
  pub numbered : p.submitted ≡ length p.started
  pub ordered : p.accepted ≡ p.started ++ p.tasks
  pub bounded : length p.tasks ≤ p.capacity
  pub kept : length p.results ≤ p.capacity

pub new_pool-IsValid : (n size m : ℕ) → IsValid (new_pool n size m)
unfolding new_pool
new_pool-IsValid n size m = record {
  counted = refl;
  balanced = refl;
  numbered = refl;
  ordered = refl;
  bounded = omega arith;
  kept = omega arith;
}

take_task-IsValid :
    (task : ℕ) (rest : List ℕ) (p : Pool)
    → IsValid p
    → 0 < p.waiting
    → p.tasks ≡ task ∷ rest
    → IsValid (take_task task rest p)
unfolding take_task
take_task-IsValid task rest p v some_ e =
    let n = length-append p.running (record { task = task; task_id = p.submitted + 1 } ∷ []) in
    let n' = length-append p.started (task ∷ []) in
    record {
      counted = omega (arith, n, v.counted);
      balanced = omega (arith, n, v.balanced);
      numbered = omega (arith, n', v.numbered);
      ordered =
          v.ordered ∙ ap (λ r. p.started ++ r) e ∙ sym (append_assoc p.started (task ∷ []) rest);
      bounded = omega (arith, ap length e, v.bounded);
      kept = v.kept;
    }

finish_task-IsValid :
    (before after : List Running) (r : Running) (failed : Bool) (p : Pool)
    → IsValid p
    → p.running ≡ before ++ (r ∷ after)
    → IsValid (finish_task before r after failed p)
unfolding finish_task
finish_task-IsValid before after r failed p v e =
    let n = ap length e ∙ length-append before (r ∷ after) in
    let n' = length-append before after in
    let m = length-append p.results (record { failed = failed; task_id = r.task_id } ∷ []) in
    record {
      counted = omega (arith, n, n', v.counted);
      balanced = omega (arith, n, n', v.balanced);
      numbered = v.numbered;
      ordered = v.ordered;
      bounded = v.bounded;
      kept = elim (Bool-cases (ltb (length p.results) p.capacity)) [
        | inl room ↦ rw room (ground arith)
        | inr full ↦ rw full v.kept
      ];
    }

-- A pool with other numbers of workers, other calls that are under way, another lock and another flag.
kept_with :
    (n w l : ℕ) (checked crowded sending : List ℕ) (locked : Option (ℕ × ℕ)) (stopped : Bool)
    (p : Pool)
    → IsValid p
    → IsValid (record p {
      num_workers = n;
      waiting = w;
      leaving = l;
      checked = checked;
      crowded = crowded;
      sending = sending;
      locked = locked;
      stopped = stopped;
    })
kept_with n w l checked crowded sending locked stopped p v = record {
  counted = v.counted;
  balanced = v.balanced;
  numbered = v.numbered;
  ordered = v.ordered;
  bounded = v.bounded;
  kept = v.kept;
}

time_out-IsValid : (p : Pool) → IsValid p → IsValid (time_out p)
unfolding time_out
time_out-IsValid p v =
    if_both IsValid (int32_lt p.min_workers p.num_workers)
      (kept_with p.num_workers (p.waiting - 1) (p.leaving + 1) p.checked p.crowded p.sending
        p.locked p.stopped p v)
      v

scaled-IsValid :
    (crowded sending : List ℕ) (p : Pool)
    → IsValid p
    → IsValid (record (maybe_scale_up p) { crowded = crowded; sending = sending })
unfolding maybe_scale_up
scaled-IsValid crowded sending p v =
    let more = min 4 ((p.max_workers + 2 ^ 32 - p.num_workers) % 2 ^ 32) in
    if_both (λ q. IsValid (record q { crowded = crowded; sending = sending }))
      (int32_lt p.num_workers p.max_workers)
      (kept_with ((p.num_workers + more) % 2 ^ 32) (p.waiting + more) p.leaving p.checked crowded
        sending p.locked p.stopped p v)
      (kept_with p.num_workers p.waiting p.leaving p.checked crowded sending p.locked p.stopped p v)

queued-IsValid :
    (task : ℕ) (p : Pool) → IsValid p → length p.tasks < p.capacity → IsValid (queued task p)
queued-IsValid task p v room = record {
  counted = v.counted;
  balanced = v.balanced;
  numbered = v.numbered;
  ordered = ap (λ r. r ++ task ∷ []) v.ordered ∙ append_assoc p.started p.tasks (task ∷ []);
  bounded = omega (arith, length-append p.tasks (task ∷ []), room);
  kept = v.kept;
}

calls-IsValid :
    (checked crowded sending : List ℕ) (p : Pool)
    → IsValid p
    → IsValid (record p { checked = checked; crowded = crowded; sending = sending })
calls-IsValid checked crowded sending p v =
    kept_with p.num_workers p.waiting p.leaving checked crowded sending p.locked p.stopped p v

arrive-IsValid : (task : ℕ) (p : Pool) → IsValid p → IsValid (arrive task p)
unfolding arrive
arrive-IsValid task p v =
    if_both IsValid p.stopped v (calls-IsValid (p.checked ++ task ∷ []) p.crowded p.sending p v)

look-IsValid :
    (before : List ℕ) (task : ℕ) (after : List ℕ) (p : Pool)
    → IsValid p
    → IsValid (look before task after p)
unfolding look
look-IsValid before task after p v =
    if_both IsValid (is_crowded p)
      (calls-IsValid (before ++ after) (p.crowded ++ task ∷ []) p.sending p v)
      (calls-IsValid (before ++ after) p.crowded (p.sending ++ task ∷ []) p v)

resize-IsValid : (n : ℕ) (p : Pool) → IsValid p → IsValid (resize n p)
unfolding resize
resize-IsValid n p v = if_both IsValid (n == 0) v (
    kept_with p.num_workers p.waiting p.leaving p.checked p.crowded p.sending
      (some (p.num_workers, n)) p.stopped p v)

Work-IsValid : {p q : Pool} → IsValid p → Work p q → IsValid q
unfolding leave
Work-IsValid {p} v (takes {task} {rest} h e) = take_task-IsValid task rest p v h e
Work-IsValid {p} v (finishes before after r failed e) =
    finish_task-IsValid before after r failed p v e
Work-IsValid {p} v (waits h) = time_out-IsValid p v
Work-IsValid {p} v (leaves h) =
    kept_with ((p.num_workers + 2 ^ 32 - 1) % 2 ^ 32) p.waiting (p.leaving - 1) p.checked p.crowded
      p.sending p.locked p.stopped p v

Step-IsValid : {p q : Pool} → IsValid p → Step p q → IsValid q
unfolding scale send give_up resize_store quit stop
Step-IsValid v (works w) = Work-IsValid v w
Step-IsValid {p} v (quits h s) =
    kept_with p.num_workers (p.waiting - 1) p.leaving p.checked p.crowded p.sending p.locked
      p.stopped p v
Step-IsValid {p} v (arrives task) = arrive-IsValid task p v
Step-IsValid {p} v (looks before task after e) = look-IsValid before task after p v
Step-IsValid {p} v (scales before task after e free) =
    scaled-IsValid (before ++ after) (p.sending ++ task ∷ []) p v
Step-IsValid {p} v (sends before task after e room) =
    calls-IsValid p.checked p.crowded (before ++ after) (queued task p)
      (queued-IsValid task p v room)
Step-IsValid {p} v (gives_up before task after e s) =
    calls-IsValid p.checked p.crowded (before ++ after) p v
Step-IsValid {p} v (resizes n free) = resize-IsValid n p v
Step-IsValid {p} v (stores {old} {n} e) =
    kept_with (n % 2 ^ 32) (p.waiting + (if int32_lt old n then (n + 2 ^ 32 - old) % 2 ^ 32 else 0))
      p.leaving p.checked p.crowded p.sending none p.stopped p v
Step-IsValid {p} v stops =
    kept_with p.num_workers p.waiting p.leaving p.checked p.crowded p.sending p.locked true p v

-- In every order of the steps of the workers and of the calls of Submit, Resize and Stop, in which a worker's
-- taking of a task and its finishing are one step each, a valid pool stays valid: tasks are taken in the order
-- in which they were queued and none is lost, the counters of tasks that were submitted, are active and are
-- completed agree with the tasks that run, and neither the queue nor the results outgrow their capacity.
pub Reach_pool-IsValid : {p q : Pool} → IsValid p → Reach p q → IsValid q
Reach_pool-IsValid v here = v
Reach_pool-IsValid v (later r s) = Step-IsValid (Reach_pool-IsValid v r) s
