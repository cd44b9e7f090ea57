-- ===== src/Xhttp.antt =====
-- The multiplexer of app/transport/xhttp.go. Its methods run one at a time, as the locks have it; `sent` is
-- what went to the connection, whose writes succeed. The deferred Close of readLoop is in Xhttp/Closing.
pub mod Frames
pub mod Delivery
pub mod Closing
mod Tests
use oiwest_core.Common.{
  ℕ, zero, suc, ◌+◌, ◌-◌, ◌*◌, ◌/◌, ◌%◌, ◌^◌, Bool, true, false, not, ◌&&◌, ◌||◌, List, [], ◌∷◌,
  ◌++◌, ltb, ◌==◌, if◌then◌else◌, length, take, drop, byte_at, be32, u32_at, Option, none, some,
  Result, ok, err, panic, ◌>>=◌, ◌>>◌, check, min,
}
use oiwest_core.Mux.Assoc.{Table, lookup, insert}

pub data Error : Type 0 where
  xhttp_closed eof : Error

-- XHTTPFrameType; the read loop ignores other values.
pub data FrameType : Type 0 where
  data_frame ping pong close_frame reset_frame go_away : FrameType
  unknown : ℕ → FrameType

unfoldable pub type_of : ℕ → FrameType
type_of t =
    if t == 1
    then data_frame
    else if t == 2
    then ping
    else if t == 3
    then pong
    else if t == 4
    then close_frame
    else if t == 5
    then reset_frame
    else if t == 6
    then go_away
    else unknown t

-- XHTTPStream; its write channel is never used.
pub record Stream : Type 0 where
  pub read_buf : List ℕ
  pub closed : Bool

-- XHTTPConnection.
pub record Conn : Type 0 where
  pub streams : Table Stream
  pub next_id : ℕ
  pub closed : Bool
  pub accept_queue : List ℕ
  pub sent : List ℕ

-- NewXHTTPConnection, without the goroutine.
unfoldable pub new_conn : Conn
new_conn = record { streams = []; next_id = 1; closed = false; accept_queue = []; sent = [] }

abbrev pub new_stream : Stream
new_stream = record { read_buf = []; closed = false }

-- OpenStream.
unfoldable pub open_stream : Conn → Result Error (ℕ × Conn)
open_stream c =
    check (not c.closed) xhttp_closed
    >> ok (
      c.next_id,
      record c {
        next_id = (c.next_id + 2) % 2 ^ 32;
        streams = insert c.next_id new_stream c.streams;
      },
    )

-- The bytes of writeFrame.
unfoldable pub frame_bytes : ℕ → ℕ → ℕ → List ℕ → List ℕ
frame_bytes id kind flags bytes =
    kind ∷ (be32 id ++ (be32 (length bytes) ++ (flags ∷ 0 ∷ 0 ∷ bytes)))

unfoldable pub write_frame : ℕ → ℕ → ℕ → List ℕ → Conn → Result Error Conn
unfolding frame_bytes
write_frame id kind flags bytes c =
    check (not c.closed) xhttp_closed
    >> ok (record c { sent = c.sent ++ frame_bytes id kind flags bytes })

-- One frame off the connection: its type, its stream, its payload and what follows; none where io.ReadFull
-- fails.
unfoldable pub read_frame : List ℕ → Option ((ℕ × ℕ × List ℕ) × List ℕ)
read_frame stream =
    let len = u32_at stream 5 in
    let rest = drop 12 stream in
    if ltb (length stream) 12 || ltb (length rest) len
    then none
    else some ((byte_at stream 0, u32_at stream 1, take len rest), drop len rest)

-- The accept channel holds 16 streams; one that finds it full is not announced.
unfoldable pub announce : ℕ → Conn → Conn
announce id c =
    if ltb (length c.accept_queue) 16
    then record c { accept_queue = c.accept_queue ++ id ∷ [] }
    else c

abbrev pub appended : List ℕ → Stream → Stream
appended bytes st = record st { read_buf = st.read_buf ++ bytes }

-- handleData.
unfoldable pub handle_data : ℕ → List ℕ → Conn → Conn
unfolding announce
handle_data id bytes c = elim (lookup id c.streams) [
  | some st ↦ record c { streams = insert id (appended bytes st) c.streams }
  | none ↦
      if id % 2 == 0
      then announce id (record c { streams = insert id (appended bytes new_stream) c.streams })
      else c
]

-- handleClose, and handleReset, which does the same.
unfoldable pub handle_close : ℕ → Conn → Conn
handle_close id c = elim (lookup id c.streams) [
  | some st ↦ record c { streams = insert id (record st { closed = true }) c.streams }
  | none ↦ c
]

abbrev pub handle_reset : ℕ → Conn → Conn
handle_reset id c = handle_close id c

-- The error of writeFrame that readLoop drops.
abbrev pub or_same : Conn → Result Error Conn → Conn
or_same c r = elim r [ ok c' ↦ c' | err e ↦ c | panic ↦ c ]

-- The switch of readLoop; none ends the loop.
unfoldable pub dispatch : FrameType → ℕ → List ℕ → Conn → Option Conn
unfolding handle_data handle_close write_frame
dispatch data_frame id bytes c = some (handle_data id bytes c)
dispatch ping id bytes c = some (or_same c (write_frame 0 3 0 bytes c))
dispatch pong id bytes c = some c
dispatch close_frame id bytes c = some (handle_close id c)
dispatch reset_frame id bytes c = some (handle_reset id c)
dispatch go_away id bytes c = none
dispatch (unknown t) id bytes c = some c

-- The loop of readLoop, up to its return, on fuel.
unfoldable pub read_loop : ℕ → List ℕ → Conn → Conn
unfolding read_frame type_of dispatch
read_loop zero input c = c
read_loop (suc fuel) input c = elim c.closed [
  | true ↦ c
  | false ↦ elim (read_frame input) [
    | none ↦ c
    | some ((kind, id, bytes), rest) ↦ elim (dispatch (type_of kind) id bytes c) [
      | none ↦ c
      | some c' ↦ read_loop fuel rest c'
    ]
  ]
]

-- AcceptStream: a stream, an error, or a wait. Of two cases of the select that are both ready either may be
-- taken: `done_first` says which.
pub data Accepted : Type 0 where
  stream : ℕ → Accepted
  refused : Error → Accepted
  waiting : Accepted

unfoldable pub accept_stream : Bool → Conn → Conn × Accepted
accept_stream done_first c = elim c.accept_queue [
  | [] ↦ (c, if c.closed then refused xhttp_closed else waiting)
  | id ∷ queue ↦
      if c.closed && done_first
      then (c, refused xhttp_closed)
      else (record c { accept_queue = queue }, stream id)
]

-- XHTTPStream.Read: bytes, or an error, or a wait for data.
unfoldable pub stream_read : ℕ → Stream → Option (Result Error (List ℕ × Stream))
stream_read size st = elim st.read_buf [
  | [] ↦ if st.closed then some (err eof) else none
  | b ∷ bs ↦
      let n = min size (length (b ∷ bs)) in
      some (ok (take n (b ∷ bs), record st { read_buf = drop n (b ∷ bs) }))
]

-- XHTTPStream.Write and Close, on the stream with this id.
unfoldable pub stream_write : ℕ → Stream → List ℕ → Conn → Result Error Conn
unfolding write_frame
stream_write id st bytes c = check (not st.closed) eof >> write_frame id 1 0 bytes c

unfoldable pub stream_close : ℕ → Stream → Conn → Stream × Conn
unfolding write_frame
stream_close id st c =
    if st.closed
    then (st, c)
    else (record st { closed = true }, or_same c (write_frame id 4 0 [] c))
