-- ===== src/Mux/Tests.antt =====
-- The theorems of the multiplexer on concrete sessions.
use oiwest_core.Common.{
  ℕ, ◌%◌, ◌≡◌, ◌⊎◌, refl, true, List, [], ◌∷◌, ◌++◌, length, take, drop, suc, replicate, none, some,
  err, arith,
}
use oiwest_core.Buf.{Buffer}
use oiwest_core.Mux.{
  Session, session_closed, max_streams_reached, frame_bytes, read_frame, new_session, new_stream,
  table_of, store, open_stream,
}
use oiwest_core.Mux.Assoc.{lookup, insert}
use oiwest_core.Mux.Frame.{read_frame-frame_bytes}
use oiwest_core.Mux.Ids.{IsValid, opened, new_session-IsValid, open_stream_lem}
use oiwest_core.Mux.Life.{here, full_forever}
use oiwest_core.Mux.Open.{IsOpen}
use oiwest_core.Mux.Loop.{read_loop, IsStuck, read_loop-IsStuck}

abbrev buffer : Buffer
buffer = record { bytes = replicate 4 0; start = 0; end = 0; pooled = true }

abbrev one_stream : Session
one_stream = opened buffer [] (new_session 1)

abbrev three : List ℕ
three = 1 ∷ 2 ∷ 3 ∷ []

read_frame-frame_bytes_example :
    read_frame (frame_bytes 7 0 three ++ 9 ∷ [])
    ≡ some ((7, 0, take (length three % 65536) three), drop (length three % 65536) three ++ 9 ∷ [])
read_frame-frame_bytes_example = read_frame-frame_bytes 7 0 three (9 ∷ []) (omega arith)

open_stream_lem_example :
    (1 % 2 ≡ 1)
    × (lookup 1 (table_of (new_session 1).streams) ≡ none)
    × (lookup 1 (table_of one_stream.streams) ≡ some (new_stream buffer))
    × (length (table_of one_stream.streams) ≡ suc (length (table_of (new_session 1).streams)))
    × IsValid one_stream
unfolding new_session open_stream store
open_stream_lem_example =
    open_stream_lem buffer (new_session 1) one_stream 1 (new_session-IsValid 1) (omega arith) refl

full_forever_example :
    (open_stream buffer one_stream ≡ err session_closed)
    ⊎ (open_stream buffer one_stream ≡ err max_streams_reached)
unfolding new_session insert
full_forever_example = full_forever buffer here (omega arith) (omega arith)

new_session-IsOpen : (max : ℕ) → IsOpen (new_session max)
unfolding new_session
new_session-IsOpen max = record {
  table = [];
  filled = refl;
  valid = tt;
  not_closed = refl;
  connected = refl;
}

-- Data on an even id, and then the end of the input.
read_loop-IsStuck_example :
    IsStuck
      (read_loop 12 1 (λ n. buffer) (0 ∷ 0 ∷ 0 ∷ 2 ∷ 0 ∷ 0 ∷ 0 ∷ 2 ∷ 7 ∷ 8 ∷ []) (new_session 8))
read_loop-IsStuck_example =
    read_loop-IsStuck 12 1 (λ n. buffer) (0 ∷ 0 ∷ 0 ∷ 2 ∷ 0 ∷ 0 ∷ 0 ∷ 2 ∷ 7 ∷ 8 ∷ [])
      (new_session 8) (λ n. record { ordered = omega arith; bounded = omega arith })
      (new_session-IsOpen 8) (omega arith)
