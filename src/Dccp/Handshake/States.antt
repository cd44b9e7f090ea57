-- ===== src/Dccp/Handshake/States.antt =====
-- The state machine that AdvanceState decides.
use oiwest_core.Common.{ℕ, suc, ◌+◌, ◌<◌, ◌≤◌, ◌≡◌, ◌≢◌, refl, ◌⊎◌, inl, inr, true, arith}
use oiwest_core.Dccp.Handshake.{
  State, closed, request, respond, part_open, open_, close_req, closing, time_wait, ConnState,
  may_advance, advance_state,
}

-- The position of a state in the life of a connection.
abbrev pub stage : State → ℕ
stage closed = 0
stage request = 1
stage respond = 2
stage part_open = 3
stage open_ = 4
stage close_req = 5
stage closing = 6
stage time_wait = 7

may_advance-stage :
    (s t : State) → may_advance s t ≡ true → ((s ≡ time_wait) × (t ≡ closed)) ⊎ (stage s < stage t)
unfolding may_advance
may_advance-stage s t h = ground arith

-- An advance that AdvanceState accepts moves the connection forward through the stages of its
-- life, or back from TimeWait to Closed; the answer leaves the connection as it was.
pub advance_state_lem :
    (cs : ConnState) (next : State)
    → (advance_state cs next).1 ≡ true
    → ((advance_state cs next).0 ≡ cs)
      × (((cs.state ≡ time_wait) × (next ≡ closed)) ⊎ (stage cs.state < stage next))
unfolding advance_state
advance_state_lem cs next h = (refl, may_advance-stage cs.state next h)

-- A chain of advances that AdvanceState accepts and that never leaves TimeWait, with its length.
pub data Climb (s : State) : ℕ → State → Type 0 where
  start : Climb s 0 s
  climb :
      {t u : State} {n : ℕ}
      → Climb s n t
      → t ≢ time_wait
      → may_advance t u ≡ true
      → Climb s (suc n) u

-- Each step of such a chain climbs a stage at least, so from Closed no chain has more than seven.
pub Climb-stage : {s t : State} {n : ℕ} → Climb s n t → stage s + n ≤ stage t
Climb-stage start = omega arith
Climb-stage (climb {t} {u} c ne ok) = elim (may_advance-stage t u ok) [
  | inl (e, _) ↦ absurd (ne e)
  | inr up ↦ omega (arith, Climb-stage c)
]
