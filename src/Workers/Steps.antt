-- ===== src/Workers/Steps.antt =====
-- The steps of a pool: those of its workers, and those of its callers.
use oiwest_core.Common.{ℕ, ◌<◌, ◌≡◌, Bool, true, List, ◌∷◌, ◌++◌, length, none, some}
use oiwest_core.Workers.{
  Running, Pool, arrive, look, scale, send, give_up, take_task, finish_task, time_out, leave, quit,
  resize, resize_store, stop,
}

pub data Work (p : Pool) : Pool → Type 0 where
  takes :
      {task : ℕ} {rest : List ℕ}
      → 0 < p.waiting
      → p.tasks ≡ task ∷ rest
      → Work p (take_task task rest p)
  finishes :
      (before after : List Running) (r : Running) (failed : Bool)
      → p.running ≡ before ++ (r ∷ after)
      → Work p (finish_task before r after failed p)
  waits : 0 < p.waiting → Work p (time_out p)
  leaves : 0 < p.leaving → Work p (leave p)

pub data Step (p : Pool) : Pool → Type 0 where
  works : {q : Pool} → Work p q → Step p q
  quits : 0 < p.waiting → p.stopped ≡ true → Step p (quit p)
  arrives : (task : ℕ) → Step p (arrive task p)
  looks :
      (before : List ℕ) (task : ℕ) (after : List ℕ)
      → p.checked ≡ before ++ (task ∷ after)
      → Step p (look before task after p)
  scales :
      (before : List ℕ) (task : ℕ) (after : List ℕ)
      → p.crowded ≡ before ++ (task ∷ after)
      → p.locked ≡ none
      → Step p (scale before task after p)
  sends :
      (before : List ℕ) (task : ℕ) (after : List ℕ)
      → p.sending ≡ before ++ (task ∷ after)
      → length p.tasks < p.capacity
      → Step p (send before task after p)
  gives_up :
      (before : List ℕ) (task : ℕ) (after : List ℕ)
      → p.sending ≡ before ++ (task ∷ after)
      → p.stopped ≡ true
      → Step p (give_up before after p)
  resizes : (n : ℕ) → p.locked ≡ none → Step p (resize n p)
  stores : {old n : ℕ} → p.locked ≡ some (old, n) → Step p (resize_store old n p)
  stops : Step p (stop p)

pub data Reach (p : Pool) : Pool → Type 0 where
  here : Reach p p
  later : {q r : Pool} → Reach p q → Step q r → Reach p r

-- Steps of the workers alone.
pub data Works (p : Pool) : Pool → Type 0 where
  still : Works p p
  on : {q r : Pool} → Works p q → Work q r → Works p r
