-- ===== src/Workers/Tests.antt =====
-- The theorems of the pool on concrete pools.
use oiwest_core.Common.{◌<◌, ◌≡◌, refl, [], arith}
use oiwest_core.Workers.{Pool, new_pool, arrive, is_crowded, look, send, stop}
use oiwest_core.Workers.Steps.{Reach, here, later, arrives, looks, sends, stops, Works}
use oiwest_core.Workers.Invariant.{IsValid, new_pool-IsValid, Reach_pool-IsValid}
use oiwest_core.Workers.Progress.{goroutines, works_off}

abbrev small : Pool
small = new_pool 2 4 8

-- A Submit is past its look at the queue when the pool is stopped, and its task is queued all the same.
abbrev with_task : Pool
with_task = send [] 7 [] (stop (look [] 7 [] (arrive 7 small)))

run : Reach small with_task
unfolding new_pool arrive look is_crowded send stop
run =
    later (later (later (later here (arrives 7)) (looks [] 7 [] refl)) stops)
      (sends [] 7 [] refl (omega arith))

Reach_pool-IsValid_example : IsValid with_task
Reach_pool-IsValid_example = Reach_pool-IsValid (new_pool-IsValid 2 4 8) run

with_task-IsValid : IsValid with_task
with_task-IsValid = Reach_pool-IsValid (new_pool-IsValid 2 4 8) run

staffed : 0 < goroutines with_task
unfolding new_pool arrive look is_crowded send stop
staffed = omega arith

works_off_example :
    (q : Pool) × Works with_task q × (q.tasks ≡ []) × (q.started ≡ with_task.accepted)
works_off_example = works_off with_task with_task-IsValid staffed
