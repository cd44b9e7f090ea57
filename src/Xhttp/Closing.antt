-- ===== src/Xhttp/Closing.antt =====
-- Close of a connection, and the goroutine of readLoop with its deferred Close. A caller of Close that was the
-- first waits until the goroutine is done, and closes the connection below then.
use oiwest_core.Common.{if_both, ℕ, ◌-◌, arith, ◌≡◌, refl, Bool, true, false, if◌then◌else◌}

-- The goroutine: in its loop, in its own call of Close that waits for it, or done.
pub data Phase : Type 0 where
  reading waiting done : Phase

-- `running` is the count of the wait group, and `closer` whether a caller outside waits for it to be 0.
pub record Life : Type 0 where
  pub closed : Bool
  pub loop : Phase
  pub running : ℕ
  pub closer : Bool
  pub conn_closed : Bool

-- NewXHTTPConnection.
abbrev pub started : Life
started = record {
  closed = false;
  loop = reading;
  running = 1;
  closer = false;
  conn_closed = false;
}

-- The return of the loop with the deferred Close, which the flag lets pass or not; then wg.Done.
unfoldable pub loop_returns : Life → Life
loop_returns l =
    if l.closed
    then record l { loop = done; running = l.running - 1 }
    else record l { closed = true; loop = waiting }

-- Close by a caller.
unfoldable pub close : Life → Life
close l = if l.closed then l else record l { closed = true; closer = true }

-- The rest of Close once the wait group is at 0: that of a caller, and that of the loop, which is done then.
unfoldable pub finish_close : Life → Life
finish_close l = record l { closer = false; conn_closed = true }

unfoldable pub finish_loop : Life → Life
finish_loop l = record l { loop = done; running = l.running - 1; conn_closed = true }

pub data Step (l : Life) : Life → Type 0 where
  returns : l.loop ≡ reading → Step l (loop_returns l)
  calls : Step l (close l)
  finishes : l.closer ≡ true → l.running ≡ 0 → Step l (finish_close l)
  loop_finishes : l.loop ≡ waiting → l.running ≡ 0 → Step l (finish_loop l)

pub data Reach (l : Life) : Life → Type 0 where
  here : Reach l l
  later : {p q : Life} → Reach l p → Step p q → Reach l q

-- The loop waits for itself.
pub record IsStuck (l : Life) : Type 0 where
  pub flagged : l.closed ≡ true
  pub waits : l.loop ≡ waiting
  pub counted : l.running ≡ 1
  pub still_open : l.conn_closed ≡ false

Step-IsStuck : {l l' : Life} → IsStuck l → Step l l' → IsStuck l'
unfolding loop_returns close finish_close
Step-IsStuck v (returns h) = cc (h, v.waits)
Step-IsStuck {l = l} v calls =
    if_both IsStuck l.closed v
      (record { flagged = refl; waits = v.waits; counted = v.counted; still_open = v.still_open })
Step-IsStuck v (finishes h d) = absurd (omega (arith, d, v.counted))
Step-IsStuck v (loop_finishes h d) = absurd (omega (arith, d, v.counted))

Reach-IsStuck : {l l' : Life} → IsStuck l → Reach l l' → IsStuck l'
Reach-IsStuck v here = v
Reach-IsStuck v (later r t) = Step-IsStuck (Reach-IsStuck v r) t

-- Where the read loop returns before anyone called Close, its goroutine waits for itself: it is never done, and
-- the connection below is never closed, whatever calls follow.
pub loop_returns-IsStuck :
    {l : Life} → Reach (loop_returns started) l → (l.loop ≡ waiting) × (l.conn_closed ≡ false)
unfolding loop_returns
loop_returns-IsStuck r =
    let v =
      Reach-IsStuck (record { flagged = refl; waits = refl; counted = refl; still_open = refl })
        r in
    (v.waits, v.still_open)
