-- ===== src/Mux.antt =====
-- The stream multiplexer of app/features/multiplex/mux.go. A session's methods run one at a time,
-- as its locks have it; `sent` is what went to the connection, whose writes succeed. A nil map is
-- `none`.
pub mod Frame
pub mod Assoc
pub mod Ids
pub mod Accept
pub mod Life
pub mod Open
pub mod Loop
mod Tests
use oiwest_core.Common.{
  not, ℕ, zero, suc, ◌+◌, ◌-◌, ◌*◌, ◌/◌, ◌%◌, ◌^◌, Bool, true, false, ◌&&◌, ◌||◌, List, [], ◌∷◌,
  ◌++◌, ltb, leb, ◌==◌, if◌then◌else◌, length, take, drop, byte_at, be32, u32_at, Option, none,
  some, Result, ok, err, panic, ◌>>=◌, ◌>>◌, check,
}
use oiwest_core.Mux.Assoc.{Table, lookup, insert}
use oiwest_core.Buf
use oiwest_core.Buf.{Buffer}

-- FrameType: a byte; other values than these six are ignored by the read loop.
pub data FrameKind : Type 0 where
  data_frame close_frame reset_frame ping pong go_away : FrameKind
  unknown : ℕ → FrameKind

abbrev pub kind_of : ℕ → FrameKind
kind_of t =
    if t == 0
    then data_frame
    else if t == 1
    then close_frame
    else if t == 2
    then reset_frame
    else if t == 3
    then ping
    else if t == 4
    then pong
    else if t == 5
    then go_away
    else unknown t

-- FrameHeaderSize.
abbrev pub frame_header_size : ℕ
frame_header_size = 8

-- The bytes that WriteFrame sends, from its buffer or from a new one: the length field holds two
-- bytes of the length.
pub frame_bytes : ℕ → ℕ → List ℕ → List ℕ
frame_bytes id kind payload =
    be32 id ++ (kind ∷ 0 ∷ (length payload / 256 % 256) ∷ (length payload % 256) ∷ payload)

-- One frame off the connection, as readLoop reads it; `none` where io.ReadFull fails.
pub read_frame : List ℕ → Option ((ℕ × ℕ × List ℕ) × List ℕ)
read_frame stream =
    let len = byte_at stream 6 * 256 + byte_at stream 7 in
    let rest = drop frame_header_size stream in
    if ltb (length stream) frame_header_size || ltb (length rest) len
    then none
    else some ((u32_at stream 0, byte_at stream 4, take len rest), drop len rest)

-- MuxStream: its buffer, whether readCh holds a signal, and its two flags.
pub record Stream : Type 0 where
  pub read_buf : Buffer
  pub signal : Bool
  pub closed : Bool
  pub reset : Bool

pub record Session : Type 0 where
  pub streams : Option (Table Stream)
  pub next_id : ℕ
  pub max_streams : ℕ
  pub closed : Bool
  pub accept_queue : List ℕ
  pub sent : List (List ℕ)
  pub conn_closed : Bool

pub data Error : Type 0 where
  session_closed stream_closed reset_stream max_streams_reached : Error

-- NewMuxSession, without its two goroutines.
unfoldable pub new_session : ℕ → Session
new_session max = record {
  streams = some [];
  next_id = 1;
  max_streams = max;
  closed = false;
  accept_queue = [];
  sent = [];
  conn_closed = false;
}

abbrev pub table_of : Option (Table Stream) → Table Stream
table_of none = []
table_of (some t) = t

-- A stream as OpenStream and handleData make it.
abbrev pub new_stream : Buffer → Stream
new_stream b = record { read_buf = b; signal = false; closed = false; reset = false }

-- An assignment to a map: it panics on a nil map.
pub store : ℕ → Stream → Session → Result Error Session
store id st s = elim s.streams [
  | none ↦ panic
  | some t ↦ ok (record s { streams = some (insert id st t) })
]

-- OpenStream, with the buffer that its stream gets.
pub open_stream : Buffer → Session → Result Error (ℕ × Session)
open_stream b s = do
  check (not s.closed) session_closed
  check (ltb (length (table_of s.streams) % 2 ^ 32) s.max_streams) max_streams_reached
  s' ← store s.next_id (new_stream b) (record s { next_id = (s.next_id + 2) % 2 ^ 32 })
  ok (s.next_id, s')

-- WriteFrame.
pub write_frame : ℕ → ℕ → List ℕ → Session → Result Error Session
write_frame id kind payload s =
    if s.closed
    then err session_closed
    else ok (record s { sent = s.sent ++ frame_bytes id kind payload ∷ [] })

-- The write of received data into a stream's buffer, which drops what does not fit, and the signal.
abbrev pub deliver : List ℕ → Stream → Result Error Stream
deliver payload st = elim (Buf.write payload st.read_buf) [
  | ok r ↦ ok (record st { read_buf = r.0; signal = true })
  | err e ↦ ok (record st { signal = true })
  | panic ↦ panic
]

-- The accept channel holds 32 streams; a stream that finds it full is not announced.
pub announce : ℕ → Session → Session
announce id s =
    if ltb (length s.accept_queue) 32
    then record s { accept_queue = s.accept_queue ++ id ∷ [] }
    else s

-- A new stream for an even id.
pub accept_data : Buffer → ℕ → List ℕ → Session → Result Error Session
accept_data b id payload s = do
  st ← deliver payload (new_stream b)
  s' ← store id st s
  ok (announce id s')

-- handleData, with the buffer that a new stream gets.
pub handle_data : Buffer → ℕ → List ℕ → Session → Result Error Session
handle_data b id payload s = elim (lookup id (table_of s.streams)) [
  | some st ↦ deliver payload st >>= λ st'. store id st' s
  | none ↦ if id % 2 == 0 then accept_data b id payload s else ok s
]

-- handleClose and handleReset: the flags and the signal of a stream that is there.
pub handle_close : ℕ → Session → Session
handle_close id s = elim (lookup id (table_of s.streams)) [
  | some st ↦ record s {
    streams = some (insert id (record st { closed = true; signal = true }) (table_of s.streams));
  }
  | none ↦ s
]

pub handle_reset : ℕ → Session → Session
handle_reset id s = elim (lookup id (table_of s.streams)) [
  | some st ↦ record s {
    streams =
        some (
          insert id (record st { reset = true; closed = true; signal = true })
            (table_of s.streams));
  }
  | none ↦ s
]

-- The error that readLoop drops when it answers a ping.
abbrev pub ignore : Session → Result Error Session → Result Error Session
ignore s (ok s') = ok s'
ignore s (err e) = ok s
ignore s panic = panic

-- The switch of readLoop; `none` ends the loop.
pub dispatch : Buffer → ℕ → FrameKind → List ℕ → Session → Result Error (Option Session)
dispatch b id data_frame payload s = handle_data b id payload s >>= λ s'. ok (some s')
dispatch b id close_frame payload s = ok (some (handle_close id s))
dispatch b id reset_frame payload s = ok (some (handle_reset id s))
dispatch b id ping payload s = ignore s (write_frame 0 4 payload s) >>= λ s'. ok (some s')
dispatch b id pong payload s = ok (some s)
dispatch b id go_away payload s = ok none
dispatch b id (unknown t) payload s = ok (some s)

-- The error that Close drops.
abbrev pub keep : Session → Result Error Session → Session
keep s (ok s') = s'
keep s (err e) = s
keep s panic = s

-- Close up to the wait for the wait group: the session is marked closed, the go-away frame, then the map is
-- dropped; its streams' flags go with it.
pub shut : Session → Session
shut s =
    let marked = record s { closed = true } in
    record (keep marked (write_frame 0 5 [] marked)) { streams = none }

-- A call of Close returns, or waits for the wait group with the connection still open.
pub data Closing : Type 0 where
  returned : Session → Closing
  awaiting : Session → Closing

-- Close, while so many goroutines are in the wait group.
pub close : ℕ → Session → Closing
close running s =
    if s.closed
    then returned s
    else if running == 0
    then returned (record (shut s) { conn_closed = true })
    else awaiting (shut s)

-- MuxStream.Read: bytes, an error, or a wait for the signal.
pub data ReadResult : Type 0 where
  got : List ℕ → ReadResult
  failed : Error → ReadResult
  end_of_file : ReadResult
  waits : ReadResult

abbrev pub stream_read : ℕ → Stream → Stream × ReadResult
stream_read size st =
    if st.reset then (st, failed reset_stream) else elim (Buf.read size st.read_buf) [
      | ok r ↦ (record st { read_buf = r.0 }, got r.1)
      | err e ↦ (st, if st.closed then end_of_file else waits)
      | panic ↦ (st, waits)
    ]

-- MuxStream.Write, on the stream with this id.
abbrev pub stream_write : ℕ → Stream → List ℕ → Session → Result Error Session
stream_write id st payload s = if st.closed then err stream_closed else write_frame id 0 payload s

-- A stream of the map, changed through its pointer.
pub put_back : ℕ → Stream → Session → Session
put_back id st s = record s { streams = some (insert id st (table_of s.streams)) }

-- A session after a frame that may have been refused, and the error.
abbrev pub with_error : Session → Result Error Session → Session × Result Error (Unit {0})
with_error s (ok s') = (s', ok tt)
with_error s (err e) = (s, err e)
with_error s panic = (s, panic)

-- Close, Reset and Read of the stream that the map has under an id; none where it has no such stream.
pub stream_close : ℕ → Session → Option (Session × Result Error (Unit {0}))
stream_close id s = elim (lookup id (table_of s.streams)) [
  | none ↦ none
  | some st ↦
      let s' = put_back id (record st { closed = true }) s in
      some (if st.closed then (s, ok tt) else with_error s' (write_frame id 1 [] s'))
]

pub stream_reset : ℕ → Session → Option (Session × Result Error (Unit {0}))
stream_reset id s = elim (lookup id (table_of s.streams)) [
  | none ↦ none
  | some st ↦
      let s' = put_back id (record st { reset = true }) s in
      some (with_error s' (write_frame id 2 [] s'))
]

pub session_read : ℕ → ℕ → Session → Option (Session × ReadResult)
session_read size id s = elim (lookup id (table_of s.streams)) [
  | none ↦ none
  | some st ↦ let r = stream_read size st in some (put_back id r.0 s, r.1)
]
