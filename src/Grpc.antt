-- ===== src/Grpc.antt =====
-- The connection of app/transport/grpc.go. The stream below it takes every write, and a read that
-- fails is not followed by another one.
pub mod Stream
pub mod Delivery
mod Tests
use oiwest_core.Common.{
  ℕ, zero, suc, ◌+◌, ◌-◌, ◌*◌, ◌/◌, ◌%◌, ◌^◌, ◌==◌, Bool, true, false, not, List, [], ◌∷◌, ◌++◌,
  ltb, leb, if◌then◌else◌, length, take, drop, slice, copy_at, replicate, u32_at, be32, Result, ok,
  err, panic, ◌>>=◌, ◌>>◌, check, min,
}
use oiwest_core.Common.Window.{window, moved}

pub data Error : Type 0 where
  grpc_closed eof unexpected_eof : Error

abbrev pub frame_size : ℕ
frame_size = 5

abbrev pub max_data_size : ℕ
max_data_size = 64 * 1024

-- GRPCConn: its buffer, the range of it that is still to be read, and whether it is closed.
pub record Conn : Type 0 where
  pub read_buf : List ℕ
  pub read_pos : ℕ
  pub read_len : ℕ
  pub closed : Bool

-- The connection that NewGRPCConn and Accept make.
unfoldable pub new_conn : Conn
new_conn = record {
  read_buf = replicate max_data_size 0;
  read_pos = 0;
  read_len = 0;
  closed = false;
}

-- io.ReadFull.
unfoldable pub read_full : ℕ → List ℕ → Result Error (List ℕ × List ℕ)
read_full zero stream = ok ([], stream)
read_full (suc n) [] = err eof
read_full (suc n) (x ∷ xs) =
    if ltb (length xs) n
    then err unexpected_eof
    else ok (take (suc n) (x ∷ xs), drop (suc n) (x ∷ xs))

-- What is kept of a buffer with so many bytes of data, of which so many were given.
unfoldable pub hold : List ℕ → ℕ → ℕ → Conn → Conn
hold buf len n c = record c { read_buf = buf; read_pos = moved 0 len n; read_len = len - n }

-- The buffer, made anew where a frame is longer.
unfoldable pub room_for : ℕ → List ℕ → List ℕ
room_for len buf = if ltb (length buf) len then replicate (len + 64 * 1024) 0 else buf

-- The rest of Read, behind the header of a frame; the flag of compression is not looked at.
unfoldable pub read_frame : ℕ → ℕ → Conn → List ℕ → Result Error (List ℕ × Conn × List ℕ)
unfolding read_full hold room_for
read_frame size len c stream = do
  (bytes, rest) ← read_full len stream
  let buf = copy_at (room_for len c.read_buf) 0 bytes
  let n = min size len
  ok (take n (take len buf), hold buf len n c, rest)

-- Read on an open connection.
unfoldable pub read_open : ℕ → Conn → List ℕ → Result Error (List ℕ × Conn × List ℕ)
unfolding read_frame
read_open size c stream = elim (ltb 0 c.read_len) [
  | true ↦
      let n = min size c.read_len in
      ok (
        take n (window c.read_buf c.read_pos c.read_len),
        record c { read_pos = moved c.read_pos c.read_len n; read_len = c.read_len - n },
        stream,
      )
  | false ↦ read_full 5 stream >>= λ p. read_frame size (u32_at p.0 0) c p.1
]

-- Read into `size` bytes: the bytes, the connection and the stream.
unfoldable pub read : ℕ → Conn → List ℕ → Result Error (List ℕ × Conn × List ℕ)
unfolding read_open
read size c stream = check (not c.closed) grpc_closed >> read_open size c stream

-- The frame of a chunk.
abbrev pub frame_bytes : List ℕ → List ℕ
frame_bytes chunk = be32 (length chunk) ++ 0 ∷ chunk

-- The loop of Write over what is left, on fuel; a combined buffer always has the room.
unfoldable pub write_loop : ℕ → List ℕ → List ℕ
write_loop zero bytes = []
write_loop (suc fuel) [] = []
write_loop (suc fuel) (b ∷ bs) =
    frame_bytes (take max_data_size (b ∷ bs)) ++ write_loop fuel (drop max_data_size (b ∷ bs))

-- Write: what goes to the stream.
unfoldable pub write : List ℕ → Conn → Result Error (List ℕ)
unfolding write_loop
write bytes c = check (not c.closed) grpc_closed >> ok (write_loop (length bytes) bytes)

-- Close.
unfoldable pub close : Conn → Conn
close c = record c { closed = true }
