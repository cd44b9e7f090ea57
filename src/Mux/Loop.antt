-- ===== src/Mux/Loop.antt =====
-- The read loop and the small methods of app/features/multiplex/mux.go.
use oiwest_core.Common.{
  ℕ, zero, suc, ◌+◌, ◌*◌, ◌<◌, ◌≡◌, refl, Bool, true, false, List, length, drop, length-drop,
  byte_at, Option, none, some, Option-cases, Result, ok, err, panic, arith, inl, inr,
}
use oiwest_core.Buf.{Buffer}
use oiwest_core.Buf.Split.{IsValid}
use oiwest_core.Mux.Open.{IsOpen, dispatch-IsOpen}
use oiwest_core.Mux.{
  Session, Error, kind_of, read_frame, frame_header_size, write_frame, dispatch, shut, returned,
  awaiting, close, table_of,
}

-- NumStreams and IsClosed.
abbrev pub num_streams : Session → ℕ
num_streams s = length (table_of s.streams)

abbrev pub is_closed : Session → Bool
is_closed s = s.closed

-- The goroutine of readLoop: it left the wait group, it waits in its deferred Close, which its own place in
-- the wait group keeps from returning, it panicked, or it is still in its loop.
pub data LoopEnd : Type 0 where
  left : Session → LoopEnd
  stuck : Session → LoopEnd
  panicked : LoopEnd
  still_reading : Session → LoopEnd

-- The deferred Close, with `others` goroutines in the wait group beside this one.
pub leave : ℕ → Session → LoopEnd
leave others s = elim (close (suc others) s) [ returned s' ↦ left s' | awaiting s' ↦ stuck s' ]

-- How the loop goes on after the switch.
pub after_switch : ℕ → (Session → LoopEnd) → Session → Result Error (Option Session) → LoopEnd
after_switch others next s (ok (some s')) = next s'
after_switch others next s (ok none) = leave others s
after_switch others next s (err e) = leave others s
after_switch others next s panic = panicked

-- readLoop with its deferred Close, on fuel, up to the end of its input; `buffers` has the buffer of a stream
-- that a round may make.
pub read_loop : ℕ → ℕ → (ℕ → Buffer) → List ℕ → Session → LoopEnd
read_loop zero others buffers input s = still_reading s
read_loop (suc fuel) others buffers input s = elim (read_frame input) [
  | none ↦ leave others s
  | some ((id, kind, payload), rest) ↦
      after_switch others (read_loop fuel others buffers rest) s
        (dispatch (buffers fuel) id (kind_of kind) payload s)
]

-- A loop that waits for itself, with its session closed and its connection open.
abbrev pub IsStuck : LoopEnd → Type 0
IsStuck (left s) = false ≡ true
IsStuck (stuck s) = (s.closed ≡ true) × (s.streams ≡ none) × (s.conn_closed ≡ false)
IsStuck panicked = false ≡ true
IsStuck (still_reading s) = false ≡ true

close_awaits :
    (others : ℕ) (s : Session) → s.closed ≡ false → close (suc others) s ≡ awaiting (shut s)
unfolding close
close_awaits others s e = ground arith

leave-IsStuck : (others : ℕ) (s : Session) → IsOpen s → IsStuck (leave others s)
unfolding leave shut write_frame
leave-IsStuck others s o = rw (leave, close_awaits others s o.not_closed) (refl, refl, o.connected)

read_frame_less :
    (input rest payload : List ℕ) (id kind : ℕ)
    → read_frame input ≡ some ((id, kind, payload), rest)
    → length rest < length input
unfolding read_frame
read_frame_less input rest payload id kind e =
    let n = byte_at input 6 * 256 + byte_at input 7 in
    ground
      (arith, length-drop n (drop frame_header_size input), length-drop frame_header_size input)

-- On any input, with more fuel than the input has bytes, the loop of readLoop on an open session with valid
-- buffers, which nothing else changes meanwhile, comes to an end without a panic, and its deferred Close does not
-- return: it leaves the session closed, without its map and with its connection open, and waits for the wait group
-- that the goroutine of readLoop is in.
pub read_loop-IsStuck :
    (fuel others : ℕ) (buffers : ℕ → Buffer) (input : List ℕ) (s : Session)
    → ((n : ℕ) → IsValid (buffers n))
    → IsOpen s
    → length input < fuel
    → IsStuck (read_loop fuel others buffers input s)
unfolding read_loop after_switch
read_loop-IsStuck zero others buffers input s v o h = elim h [ ]
read_loop-IsStuck (suc fuel) others buffers input s v o h = elim (Option-cases (read_frame input)) [
  | inl e ↦ rw (e, read_loop) (leave-IsStuck others s o)
  | inr (((id, kind, payload), rest), e) ↦
      elim (dispatch-IsOpen (buffers fuel) id (kind_of kind) payload s o (v fuel)) [
        | inl ends ↦ rw (e, read_loop, ends) (leave-IsStuck others s o)
        | inr (s', goes, o') ↦
            rw (e, read_loop, goes)
              (read_loop-IsStuck fuel others buffers rest s' v o'
                (omega (arith, read_frame_less input rest payload id kind e)))
      ]
]
