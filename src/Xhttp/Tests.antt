-- ===== src/Xhttp/Tests.antt =====
-- The theorems of the multiplexer on concrete frames.
use oiwest_core.Common.{ℕ, ◌≡◌, refl, false, List, [], ◌∷◌, some, ok, arith}
use oiwest_core.Mux.Assoc.{lookup}
use oiwest_core.Xhttp.{Conn, new_conn, new_stream, open_stream, stream_write, appended, read_loop}
use oiwest_core.Xhttp.Delivery.{Chunk, wire, payloads, read_loop-wire, open_stream-read_loop}
use oiwest_core.Xhttp.Closing.{
  waiting, started, loop_returns, close, here, later, calls, loop_returns-IsStuck,
}

abbrev chunks : List Chunk
chunks =
    record { id = 3; bytes = 7 ∷ [] }
    ∷ record { id = 4; bytes = 8 ∷ [] }
    ∷ record { id = 3; bytes = 9 ∷ [] }
    ∷ []

abbrev with_three : Conn
with_three = record {
  streams = (3, new_stream) ∷ [];
  next_id = 5;
  closed = false;
  accept_queue = [];
  sent = [];
}

three : lookup 3 with_three.streams ≡ some new_stream
unfolding lookup
three = refl

read_loop-wire_example :
    lookup 3 (read_loop 4 (wire chunks) with_three).streams
    ≡ some (appended (payloads 3 chunks) new_stream)
read_loop-wire_example =
    read_loop-wire 4 chunks with_three 3 new_stream (omega arith) refl
      ((omega arith, omega arith), ((omega arith, omega arith), ((omega arith, omega arith), tt)))
      three

open_stream-read_loop_example :
    (id : ℕ) × (c' : Conn) × (c'' : Conn) × (open_stream with_three ≡ ok (id, c'))
    × (stream_write id new_stream (7 ∷ []) c' ≡ ok c'')
    × (read_loop 2 c''.sent new_conn ≡ new_conn)
open_stream-read_loop_example =
    open_stream-read_loop 2 (7 ∷ []) with_three (omega arith) (omega arith) (omega arith) refl refl
      refl

loop_returns-IsStuck_example :
    ((close (loop_returns started)).loop ≡ waiting)
    × ((close (loop_returns started)).conn_closed ≡ false)
loop_returns-IsStuck_example = loop_returns-IsStuck (later here calls)
