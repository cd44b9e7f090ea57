-- ===== src/Workers.antt =====
-- The worker pool and the task scheduler of app/core/worker.go. A task is a number. A worker's taking of a
-- task and its finishing are one step each; a Submit, an idle time-out and a Resize are as many steps as
-- others can come between. The timers and the context are events that may come at any time. The upper bound of workers, four for each processor, is a field. A queue of no capacity, which would
-- hand a task from hand to hand, is not modelled.
pub mod Steps
pub mod Invariant
pub mod Progress
pub mod Schedule
mod Tests
use oiwest_core.Common.{
  ℕ, zero, suc, ◌+◌, ◌-◌, ◌*◌, ◌/◌, ◌%◌, ◌^◌, ◌==◌, Bool, true, false, not, ◌&&◌, List, [], ◌∷◌,
  ◌++◌, ltb, leb, if◌then◌else◌, length, min, max, Option, none, some,
}

-- TaskResult: whether the task failed, and its number.
pub record TaskResult : Type 0 where
  pub failed : Bool
  pub task_id : ℕ

-- A task that a worker runs, and its number.
pub record Running : Type 0 where
  pub task : ℕ
  pub task_id : ℕ

-- WorkerPool, with its goroutines: `waiting` workers are at their select, the others run a task.
-- `leaving` have found more workers than the minimum, and are to lower the counter. `num_workers` is an int32, in
-- two's complement. A call of Submit has found the pool not stopped (`checked`), has found its queue crowded
-- (`crowded`), or is at its select (`sending`). `locked` holds the numbers, old and new, of the Resize that has the
-- lock. `accepted` and `started` are the histories of the tasks that were queued and taken.
pub record Pool : Type 0 where
  pub tasks : List ℕ
  pub capacity : ℕ
  pub results : List TaskResult
  pub num_workers : ℕ
  pub min_workers : ℕ
  pub max_workers : ℕ
  pub active : ℕ
  pub submitted : ℕ
  pub completed : ℕ
  pub stopped : Bool
  pub waiting : ℕ
  pub leaving : ℕ
  pub running : List Running
  pub checked : List ℕ
  pub crowded : List ℕ
  pub sending : List ℕ
  pub locked : Option (ℕ × ℕ)
  pub accepted : List ℕ
  pub started : List ℕ

-- NewWorkerPool with Start.
unfoldable pub new_pool : ℕ → ℕ → ℕ → Pool
new_pool num_workers queue_size max_workers = record {
  tasks = [];
  capacity = queue_size;
  results = [];
  num_workers = num_workers;
  min_workers = max 2 (num_workers / 4);
  max_workers = max_workers;
  active = 0;
  submitted = 0;
  completed = 0;
  stopped = false;
  waiting = num_workers;
  leaving = 0;
  running = [];
  checked = [];
  crowded = [];
  sending = [];
  locked = none;
  accepted = [];
  started = [];
}

-- The order of int32.
pub int32_lt : ℕ → ℕ → Bool
int32_lt a b = ltb ((a + 2 ^ 31) % 2 ^ 32) ((b + 2 ^ 31) % 2 ^ 32)

-- maybeScaleUp. A worker that lowers the counter between its load and its additions could as well do so after
-- them.
unfoldable pub maybe_scale_up : Pool → Pool
unfolding int32_lt
maybe_scale_up p =
    let more = min 4 ((p.max_workers + 2 ^ 32 - p.num_workers) % 2 ^ 32) in
    if int32_lt p.num_workers p.max_workers
    then record p { num_workers = (p.num_workers + more) % 2 ^ 32; waiting = p.waiting + more }
    else p

abbrev pub queued : ℕ → Pool → Pool
queued task p = record p { tasks = p.tasks ++ task ∷ []; accepted = p.accepted ++ task ∷ [] }

-- The steps of a Submit: the flag; the look at the queue; the scaling, under the lock; the send where there is
-- room; and the end of the wait where the context is done.
unfoldable pub arrive : ℕ → Pool → Pool
arrive task p = if p.stopped then p else record p { checked = p.checked ++ task ∷ [] }

unfoldable pub is_crowded : Pool → Bool
is_crowded p = ltb (p.capacity * 3 / 4) (length p.tasks)

unfoldable pub look : List ℕ → ℕ → List ℕ → Pool → Pool
unfolding is_crowded
look before task after p =
    if is_crowded p
    then record p { checked = before ++ after; crowded = p.crowded ++ task ∷ [] }
    else record p { checked = before ++ after; sending = p.sending ++ task ∷ [] }

unfoldable pub scale : List ℕ → ℕ → List ℕ → Pool → Pool
unfolding maybe_scale_up
scale before task after p = record (maybe_scale_up p) {
  crowded = before ++ after;
  sending = p.sending ++ task ∷ [];
}

unfoldable pub send : List ℕ → ℕ → List ℕ → Pool → Pool
send before task after p = record (queued task p) { sending = before ++ after }

unfoldable pub give_up : List ℕ → List ℕ → Pool → Pool
give_up before after p = record p { sending = before ++ after }

-- A Submit that nothing comes between: it is done, or it waits at its select.
pub data Submitted : Type 0 where
  done waits : Pool → Submitted

unfoldable pub submit : ℕ → Pool → Submitted
unfolding is_crowded maybe_scale_up
submit task p =
    let p' = if is_crowded p then maybe_scale_up p else p in
    if p.stopped
    then done p
    else if ltb (length p.tasks) p.capacity
    then done (queued task p')
    else waits p'

-- A worker takes the task at the front.
unfoldable pub take_task : ℕ → List ℕ → Pool → Pool
take_task task rest p = record p {
  tasks = rest;
  active = p.active + 1;
  submitted = p.submitted + 1;
  waiting = p.waiting - 1;
  running = p.running ++ record { task = task; task_id = p.submitted + 1 } ∷ [];
  started = p.started ++ task ∷ [];
}

-- A worker is done with a task, between these that run; its result is dropped where there is no room.
unfoldable pub finish_task : List Running → Running → List Running → Bool → Pool → Pool
finish_task before r after failed p = record p {
  active = p.active - 1;
  completed = p.completed + 1;
  waiting = p.waiting + 1;
  running = before ++ after;
  results =
      if ltb (length p.results) p.capacity
      then p.results ++ record { failed = failed; task_id = r.task_id } ∷ []
      else p.results;
}

-- The idle timer of a waiting worker: its load of the counter and the comparison, and then the decrement.
unfoldable pub time_out : Pool → Pool
unfolding int32_lt
time_out p =
    if int32_lt p.min_workers p.num_workers
    then record p { waiting = p.waiting - 1; leaving = p.leaving + 1 }
    else p

unfoldable pub leave : Pool → Pool
leave p = record p { num_workers = (p.num_workers + 2 ^ 32 - 1) % 2 ^ 32; leaving = p.leaving - 1 }

-- A waiting worker sees that the context is done.
unfoldable pub quit : Pool → Pool
quit p = record p { waiting = p.waiting - 1 }

-- Resize: the load under the lock, and then the store with the new goroutines, which only wait.
unfoldable pub resize : ℕ → Pool → Pool
resize n p = if n == 0 then p else record p { locked = some (p.num_workers, n) }

unfoldable pub resize_store : ℕ → ℕ → Pool → Pool
unfolding int32_lt
resize_store old n p = record p {
  num_workers = n % 2 ^ 32;
  waiting = p.waiting + (if int32_lt old n then (n + 2 ^ 32 - old) % 2 ^ 32 else 0);
  locked = none;
}

-- Stop.
unfoldable pub stop : Pool → Pool
stop p = record p { stopped = true }

-- Schedule of a TaskScheduler, on its pending tasks.
unfoldable pub schedule : ℕ → ℕ → List ℕ → List ℕ
schedule task priority pending = if ltb 0 priority then task ∷ pending else pending ++ task ∷ []

-- Flush: the pending tasks are submitted in turn, and one of them may wait, with those behind it.
pub data Flushed : Type 0 where
  all : Pool → Flushed
  held : List ℕ → Pool → Flushed

unfoldable pub flush : List ℕ → Pool → Flushed
unfolding submit
flush [] p = all p
flush (t ∷ ts) p = elim (submit t p) [ done p' ↦ flush ts p' | waits p' ↦ held (t ∷ ts) p' ]
