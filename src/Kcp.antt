-- ===== src/Kcp.antt =====
-- The session of app/transport/mkcp.go. Times are in milliseconds. The fields that no method reads
-- are left out; `state` is set to -1 where `dead` is true. The flush time is an int64 in the
-- source, and never negative.
pub mod Segments
pub mod Queues
pub mod Valid
pub mod Flush
pub mod Life
mod Tests
use oiwest_core.Common.{
  ℕ, zero, suc, ◌+◌, ◌-◌, ◌*◌, ◌/◌, ◌%◌, ◌^◌, Bool, true, false, ◌&&◌, ◌||◌, not, List, [], ◌∷◌,
  ◌++◌, ltb, leb, ◌==◌, if◌then◌else◌, length, take, drop, replicate, slice, copy_at, byte_at, le16,
  le32, le16_at, le32_at, Result, ok, err, panic, ◌>>=◌, ◌>>◌, in_range, min,
}

-- The commands and the sizes of the protocol.
abbrev pub cmd_push : ℕ
cmd_push = 81

abbrev pub cmd_ack : ℕ
cmd_ack = 82

abbrev pub cmd_wask : ℕ
cmd_wask = 83

abbrev pub cmd_wins : ℕ
cmd_wins = 84

abbrev pub mtu_def : ℕ
mtu_def = 1350

abbrev pub overhead : ℕ
overhead = 24

abbrev pub probe_init : ℕ
probe_init = 7000

abbrev pub probe_limit : ℕ
probe_limit = 120000

-- KCPSegment.
pub record Segment : Type 0 where
  pub conv : ℕ
  pub cmd : ℕ
  pub frgl : ℕ
  pub wnd : ℕ
  pub ts : ℕ
  pub sn : ℕ
  pub una : ℕ
  pub len : ℕ
  pub body : List ℕ
  pub xmit : ℕ

-- A segment built by a composite literal: the fields that it does not name are zero.
abbrev pub zero_segment : Segment
zero_segment = record {
  conv = 0;
  cmd = 0;
  frgl = 0;
  wnd = 0;
  ts = 0;
  sn = 0;
  una = 0;
  len = 0;
  body = [];
  xmit = 0;
}

-- ackItem.
pub record AckItem : Type 0 where
  pub sn : ℕ
  pub ts : ℕ

-- KCPState.
pub record State : Type 0 where
  pub conv : ℕ
  pub mss : ℕ
  pub dead : Bool
  pub snd_nxt : ℕ
  pub rcv_nxt : ℕ
  pub rcv_wnd : ℕ
  pub rmt_wnd : ℕ
  pub probe : ℕ
  pub current : ℕ
  pub interval : ℕ
  pub ts_flush : ℕ
  pub updated : Bool
  pub ts_probe : ℕ
  pub probe_wait : ℕ
  pub dead_link : ℕ
  pub snd_buf : List Segment
  pub rcv_buf : List Segment
  pub snd_queue : List Segment
  pub rcv_queue : List Segment
  pub acklist : List AckItem
  pub buf : List ℕ
  pub reserved : ℕ

-- The one error of Recv.
pub data Error : Type 0 where
  no_data : Error

-- NewKCPState.
unfoldable pub new_state : ℕ → State
new_state conv = record {
  conv = conv;
  mss = mtu_def - overhead;
  dead = false;
  snd_nxt = 0;
  rcv_nxt = 0;
  rcv_wnd = 128;
  rmt_wnd = 128;
  probe = 0;
  current = 0;
  interval = 100;
  ts_flush = 0;
  updated = false;
  ts_probe = 0;
  probe_wait = 0;
  dead_link = 20;
  snd_buf = [];
  rcv_buf = [];
  snd_queue = [];
  rcv_queue = [];
  acklist = [];
  buf = replicate mtu_def 0;
  reserved = 0;
}

-- The loop of Recv: the bytes copied into a buffer with `room` left.
pub recv_loop : List Segment → ℕ → List ℕ
recv_loop [] room = []
recv_loop (s ∷ q) room =
    let rest = recv_loop q (room - length s.body) in
    if ltb room (length s.body) then [] else s.body ++ rest

-- Recv, with the bytes that it copies.
pub recv : ℕ → State → Result Error (State × List ℕ)
recv size k = elim k.rcv_queue [
  | [] ↦ err no_data
  | s ∷ q ↦ ok (record k { rcv_queue = [] }, recv_loop (s ∷ q) size)
]

-- The loop of Send over the pieces `i` and on.
pub send_loop : ℕ → ℕ → ℕ → List ℕ → List Segment
send_loop zero mss i buffer = []
send_loop (suc n) mss i buffer =
    let start = i * mss in
    let end = min (start + mss) (length buffer) in
    record zero_segment { len = (end - start) % 2 ^ 32; body = slice buffer start end }
    ∷ send_loop n mss (i + 1) buffer

-- Send.
pub send : List ℕ → State → State
send buffer k = record k {
  snd_queue = k.snd_queue ++ send_loop ((length buffer + k.mss - 1) / k.mss) k.mss 0 buffer;
}

-- The header of a segment, as the writes of encodeSegment make it.
pub header_bytes : Segment → List ℕ
header_bytes s =
    le32 s.conv
    ++ (s.cmd ∷ s.frgl ∷ (le16 s.wnd ++ (le32 s.ts ++ (le32 s.sn ++ (le32 s.una ++ le32 s.len)))))

-- encodeSegment, which panics where the header does not fit and cuts the data to the room.
pub encode_segment : List ℕ → Segment → Result Error (List ℕ)
encode_segment buf s = do
  in_range (leb overhead (length buf))
  ok (copy_at (copy_at buf 0 (header_bytes s)) overhead s.body)

-- `encodeSegment(buffer[offset:], …)`.
pub encode_at : ℕ → List ℕ → Segment → Result Error (List ℕ)
encode_at offset buf s = do
  in_range (leb offset (length buf))
  tail ← encode_segment (drop offset buf) s
  ok (take offset buf ++ tail)

-- The probe times at the start of flush.
pub probe_times : State → State
probe_times k =
    let wait = if k.probe_wait == 0 then probe_init else k.probe_wait in
    if k.rmt_wnd == 0
    then record k { probe_wait = wait; ts_probe = k.current + wait }
    else record k { probe_wait = 0; ts_probe = 0 }

pub probe_due : State → State
probe_due k =
    if not (k.ts_probe == 0) && leb k.ts_probe k.current
    then record k {
      probe = 2;
      ts_probe = 0;
      probe_wait = min (k.probe_wait + probe_init) probe_limit;
    }
    else k

-- The loop that numbers the queued segments.
pub number : State → ℕ → List Segment → List Segment
number k next [] = []
number k next (s ∷ q) =
    record s {
      conv = k.conv;
      sn = next;
      ts = k.current;
      cmd = cmd_push;
      wnd = k.rcv_wnd;
      una = k.rcv_nxt;
    }
    ∷ number k ((next + 1) % 2 ^ 32) q

pub enqueue : State → State
enqueue k = record k {
  snd_buf = k.snd_buf ++ number k k.snd_nxt k.snd_queue;
  snd_nxt = (k.snd_nxt + length k.snd_queue) % 2 ^ 32;
  snd_queue = [];
}

-- A segment that is transmitted for the first time.
pub transmitted : State → Segment → Segment
transmitted k s = record s {
  xmit = s.xmit + 1;
  ts = k.current;
  wnd = k.rmt_wnd;
  una = k.rcv_nxt;
  len = length s.body % 2 ^ 32;
}

pub transmit : State → Segment → Segment
transmit k s = if s.xmit == 0 then transmitted k s else s

-- The loop over the send buffer: the buffer that it encodes into, the segments, and whether one has
-- been sent too often.
pub transmit_all : State → List Segment → List ℕ → Result Error (List ℕ × List Segment × Bool)
transmit_all k [] buf = ok (buf, [], false)
transmit_all k (s ∷ rest) buf = do
  buf' ← if s.xmit == 0 then encode_at k.reserved buf (transmitted k s) else ok buf
  (last, sent, dead) ← transmit_all k rest buf'
  ok (last, transmit k s ∷ sent, leb k.dead_link (transmit k s).xmit || dead)

-- The loop over the acknowledgements.
pub acknowledge : State → List AckItem → List ℕ → Result Error (List ℕ)
acknowledge k [] buf = ok buf
acknowledge k (a ∷ rest) buf = do
  buf' ← encode_at k.reserved buf (record zero_segment {
    conv = k.conv;
    cmd = cmd_ack;
    sn = a.sn;
    ts = a.ts;
    wnd = k.rcv_wnd;
    una = k.rcv_nxt;
  })
  acknowledge k rest buf'

-- The probes at the end of flush; `probe` is 0 or 2, so the first of the source's two tests, for
-- the bit 1, is written out as `% 2`, and the second, for the bit 2, as `/ 2 % 2`.
pub write_probes : State → List ℕ → Result Error (List ℕ)
write_probes k buf =
    if k.rmt_wnd == 0
    then (do
      buf' ←
          if k.probe % 2 == 1
          then encode_at k.reserved buf (record zero_segment { conv = k.conv; cmd = cmd_wask })
          else ok buf
      if k.probe / 2 % 2 == 1
          then encode_at k.reserved buf'
              (record zero_segment { conv = k.conv; cmd = cmd_wins; wnd = k.rcv_wnd })
          else ok buf')
    else ok buf

-- The end of flush: the segments to be sent, the acknowledgements and the probes.
pub emit : State → Result Error State
emit k = do
  (buf, sent, dead) ← transmit_all k k.snd_buf k.buf
  buf' ← acknowledge k k.acklist buf
  buf'' ← write_probes k buf'
  ok (record k { snd_buf = sent; dead = k.dead || dead; acklist = []; probe = 0; buf = buf'' })

-- flush.
pub flush : State → Result Error State
flush k = emit (enqueue (probe_due (probe_times k)))

-- The flush time that Update starts from.
pub start_time : ℕ → State → State
start_time current k =
    let k' =
      if k.updated
      then record k { current = current }
      else record k { current = current; updated = true; ts_flush = current } in
    if leb (k'.ts_flush + 10000) current || ltb (current + 10000) k'.ts_flush
    then record k' { ts_flush = current }
    else k'

-- Update.
pub update : ℕ → State → Result Error State
update current k =
    let k' = start_time current k in
    let slap = current - k'.ts_flush in
    if leb k'.interval slap
    then flush (record k' { ts_flush = current - (k'.interval - slap % k'.interval) })
    else ok k'

-- What Input does with a segment.
pub accept : Segment → State → State
accept s k =
    if s.cmd == cmd_push
    then record k { rcv_buf = k.rcv_buf ++ s ∷ []; rcv_queue = k.rcv_queue ++ s ∷ [] }
    else if s.cmd == cmd_wins
    then record k { rmt_wnd = s.wnd }
    else k

-- The segment at the front of a datagram, with this data.
pub decode_segment : List ℕ → List ℕ → Segment
decode_segment bytes body = record {
  conv = le32_at bytes 0;
  cmd = byte_at bytes 4;
  frgl = byte_at bytes 5;
  wnd = le16_at bytes 6;
  ts = le32_at bytes 8;
  sn = le32_at bytes 12;
  una = le32_at bytes 16;
  len = le32_at bytes 20;
  body = body;
  xmit = 0;
}

-- The loop of Input over the rest of the datagram, on fuel. `spare` is what lies behind the datagram
-- in its array: a slice expression is bounded by the capacity, and not by the length.
pub input_loop : ℕ → List ℕ → List ℕ → State → Result Error State
input_loop zero rest spare k = ok k
input_loop (suc fuel) rest spare k = elim (ltb (length rest) overhead) [
  | true ↦ ok k
  | false ↦ do
    let len = le32_at rest 20
    let behind = drop overhead rest
    in_range (leb len (length behind + length spare))
    input_loop fuel (drop len behind) spare
        (accept (decode_segment rest (take len (behind ++ spare))) k)
]

-- Input, and whether it takes the datagram.
pub input : List ℕ → List ℕ → State → Result Error (State × Bool)
input bytes spare k =
    if ltb (length bytes) overhead
    then ok (k, false)
    else (do k' ← input_loop (length bytes) bytes spare k; ok (k', true))
