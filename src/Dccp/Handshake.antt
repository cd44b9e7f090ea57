-- ===== src/Dccp/Handshake.antt =====
-- The handshake of app/transport/dccp/handshake.go. A connection is the bytes that still arrive,
-- the outcomes of the writes to come and what was sent; the random sequence number is an
-- argument, and deadlines, sleeps and LastActivity are left out. MaxRetries is not negative.
pub mod States
pub mod Client
pub mod Server
use oiwest_core.Common.{
  some, none, Option, ℕ, zero, suc, ◌+◌, ◌%◌, ◌^◌, ◌*◌, ◌/◌, ◌-◌, Bool, true, false, ◌&&◌, ◌||◌,
  List, [], ◌∷◌, ◌++◌, leb, ◌==◌, if◌then◌else◌, length, take, drop, slice, byte_at, Result, ok,
  err, panic,
}
use oiwest_core.Dccp.Types.{service_code_v2ray, Header, Opt, Error, header_size}
use oiwest_core.Dccp.PacketType
use oiwest_core.Dccp.OptionType
use oiwest_core.Dccp.Build.{build_request, build_response, build_ack, build_close}
use oiwest_core.Dccp.Read.{read_packet}

-- HandshakeState.
pub data State : Type 0 where
  closed request respond part_open open_ close_req closing time_wait : State

-- ConnState, without its lock.
pub record ConnState : Type 0 where
  pub state : State
  pub local_port : ℕ
  pub remote_port : ℕ
  pub local_seq : ℕ
  pub remote_seq : ℕ
  pub local_ack : ℕ
  pub remote_ack : ℕ
  pub service_code : List ℕ
  pub ccid : ℕ
  pub is_server : Bool
  pub negotiated_ccid : ℕ

-- NewConnState.
unfoldable pub new_conn_state : Bool → ConnState
new_conn_state server = record {
  state = closed;
  local_port = 0;
  remote_port = 0;
  local_seq = 0;
  remote_seq = 0;
  local_ack = 0;
  remote_ack = 0;
  service_code = 0 ∷ 0 ∷ 0 ∷ 0 ∷ [];
  ccid = 4;
  is_server = server;
  negotiated_ccid = 0;
}

-- The switch of AdvanceState.
unfoldable pub may_advance : State → State → Bool
may_advance closed request = true
may_advance closed respond = true
may_advance request respond = true
may_advance request open_ = true
may_advance respond part_open = true
may_advance respond open_ = true
may_advance part_open open_ = true
may_advance open_ close_req = true
may_advance open_ closing = true
may_advance close_req closing = true
may_advance close_req time_wait = true
may_advance closing time_wait = true
may_advance time_wait closed = true
may_advance _ _ = false

-- AdvanceState: it answers, and assigns nothing.
unfoldable pub advance_state : ConnState → State → ConnState × Bool
advance_state cs next = (cs, may_advance cs.state next)

pub data Failure : Type 0 where
  handshake_failed invalid_cookie write_failed : Failure
  packet_error : Error → Failure

pub record World : Type 0 where
  pub cs : ConnState
  pub inbox : List ℕ
  pub writes : List Bool
  pub sent : List (List ℕ)

-- A step over the world that may fail; the world of a failure is the one at that point.
abbrev pub M : Type 0 → Type 0
M A = World → Result Failure A × World

abbrev pub bind : {A B : Type 0} → Result Failure A × World → (A → M B) → Result Failure B × World
bind (ok a, w) f = f a w
bind (err e, w) f = (err e, w)
bind (panic, w) f = (panic, w)

infixl 5 ◌>>=◌ ◌>>◌
abbrev pub ◌>>=◌ : {A B : Type 0} → M A → (A → M B) → M B
◌>>=◌ m f w = bind (m w) f

abbrev pub ◌>>◌ : {B : Type 0} → M (Unit {0}) → M B → M B
m >> k = m >>= λ _. k

abbrev pub return : {A : Type 0} → A → M A
return a w = (ok a, w)

abbrev pub fail : {A : Type 0} → Failure → M A
fail e w = (err e, w)

-- An assignment to the fields of the ConnState.
abbrev pub assign : (ConnState → ConnState) → M (Unit {0})
assign f w = (ok tt, record w { cs = f w.cs })

-- A packet that a builder makes.
abbrev pub built : Result Error (List ℕ) → M (List ℕ)
built (ok bytes) w = (ok bytes, w)
built (err e) w = (err (packet_error e), w)
built panic w = (panic, w)

-- conn.Write: what it sends and whether it succeeded. With no outcome left to come it succeeds.
unfoldable pub write_next : List Bool → List ℕ → M Bool
write_next [] bytes w = (ok true, record w { sent = w.sent ++ bytes ∷ [] })
write_next (true ∷ more) bytes w =
    (ok true, record w { writes = more; sent = w.sent ++ bytes ∷ [] })
write_next (false ∷ more) bytes w = (ok false, record w { writes = more })

unfoldable pub write : List ℕ → M Bool
unfolding write_next
write bytes w = write_next w.writes bytes w

-- What ReadFullDCCPPacket leaves of the stream, whatever it answers.
abbrev pub left_over : List ℕ → List ℕ
left_over stream = drop (byte_at stream 4 / 16 % 16 * 4 - header_size) (drop header_size stream)

pub answer :
    Result Error ((Header × List Opt × List ℕ) × List ℕ)
    → M (Result Error (Header × List Opt × List ℕ))
answer (ok (packet, rest)) w = (ok (ok packet), w)
answer (err e) w = (ok (err e), w)
answer panic w = (panic, w)

-- ReadFullDCCPPacket on the connection; its error is a value that the caller looks at.
pub receive : M (Result Error (Header × List Opt × List ℕ))
unfolding answer
receive w = answer (read_packet w.inbox) (record w { inbox = left_over w.inbox })

-- The client's look for a cookie, which stops at the first.
abbrev pub has_cookie : List Opt → Bool
has_cookie [] = false
has_cookie (o ∷ os) =
    (o.option_type == OptionType.init_cookie && leb 4 (length o.body)) || has_cookie os

-- The client's loop over the feature options: the last one that has data decides.
abbrev pub negotiated : List Opt → ℕ → ℕ
negotiated [] ccid = ccid
negotiated (o ∷ os) ccid = negotiated os (
    if o.option_type == OptionType.feature && leb 1 (length o.body) then byte_at o.body 0 else ccid)

-- What the client does with a response.
pub client_accept : ℕ → ℕ → ℕ → Header → List Opt → M (Unit {0})
client_accept src dst seq hdr opts = do
  assign (λ cs. record cs {
    remote_seq = hdr.sequence_number;
    local_ack = hdr.sequence_number;
    remote_ack = (seq + 1) % 2 ^ 64;
    state = part_open;
  })
  ack ← built (build_ack src dst hdr.sequence_number)
  assign (λ cs. record cs { local_seq = (cs.local_seq + 1) % 2 ^ 64; state = open_ })
  wrote ← write ack
  if wrote
      then assign (λ cs. record cs { negotiated_ccid = negotiated opts cs.negotiated_ccid })
      else fail write_failed

-- What the client does with what it received; `retry` is the next attempt, or the failure named.
pub client_answer :
    (Failure → M (Unit {0})) → ℕ → ℕ → ℕ → Result Error (Header × List Opt × List ℕ) → M (Unit {0})
client_answer retry src dst seq (ok (hdr, opts, payload)) =
    if hdr.packet_type == PacketType.response
    then (if has_cookie opts then client_accept src dst seq hdr opts else fail invalid_cookie)
    else retry handshake_failed
client_answer retry src dst seq (err e) = retry handshake_failed
client_answer retry src dst seq panic = λ w. (panic, w)

pub client_attempt : (Failure → M (Unit {0})) → ℕ → ℕ → ℕ → List ℕ → M (Unit {0})
client_attempt retry src dst seq packet = do
  wrote ← write packet
  if wrote then (receive >>= client_answer retry src dst seq) else retry write_failed

-- The attempts, by how many may still follow.
pub client_loop : ℕ → ℕ → ℕ → ℕ → List ℕ → M (Unit {0})
client_loop zero src dst seq packet = client_attempt fail src dst seq packet
client_loop (suc left) src dst seq packet =
    client_attempt (λ e. client_loop left src dst seq packet) src dst seq packet

-- ClientHandshake.
pub client_handshake : ℕ → List ℕ → ℕ → ℕ → ℕ → M (Unit {0})
client_handshake max_retries code src dst seq = do
  assign (λ cs. record cs {
    is_server = false;
    local_port = src;
    remote_port = dst;
    state = request;
    local_seq = seq;
  })
  packet ← built (build_request src dst code seq)
  client_loop max_retries src dst seq packet

-- The server's loop over the options: `opt.Data[2:6]` panics on a cookie of four or five bytes.
pub server_cookie : List Opt → Option (List ℕ) → M (Option (List ℕ))
server_cookie [] found = return found
server_cookie (o ∷ os) found =
    if o.option_type == OptionType.init_cookie && leb 4 (length o.body)
    then (if leb 6 (length o.body) then server_cookie os (some (slice o.body 2 6)) else λ w.
        (panic, w))
    else server_cookie os found

-- The error of a read that the server returns as it is, and its test of the packet's type.
pub expect : ℕ → Result Error (Header × List Opt × List ℕ) → M (Header × List Opt)
expect kind (ok (hdr, opts, payload)) =
    if hdr.packet_type == kind then return (hdr, opts) else fail handshake_failed
expect kind (err e) = fail (packet_error e)
expect kind panic = λ w. (panic, w)

abbrev pub server_respond : ℕ → Header → Option (List ℕ) → M (ℕ × ℕ)
server_respond seq hdr none = fail invalid_cookie
server_respond seq hdr (some code) = do
  assign (λ cs. record cs {
    local_port = hdr.dest_port;
    remote_port = hdr.source_port;
    service_code = code;
    remote_seq = hdr.sequence_number;
    local_seq = seq;
    remote_ack = seq;
    state = respond;
  })
  packet ← built (build_response hdr.dest_port hdr.source_port code seq hdr.sequence_number)
  wrote ← write packet
  if wrote then return tt else fail write_failed
  reply ← receive
  (ack, _) ← expect PacketType.ack reply
  assign (λ cs. record cs { local_ack = ack.sequence_number; state = open_ })
  return (hdr.source_port, hdr.dest_port)

-- ServerHandshake.
pub server_handshake : ℕ → M (ℕ × ℕ)
server_handshake seq = do
  assign (λ cs. record cs { is_server = true; state = closed })
  got ← receive
  (hdr, opts) ← expect PacketType.request got
  code ← server_cookie opts none
  server_respond seq hdr code

-- Close: the state is closed whether or not the write succeeds.
pub close : M Bool
close = do
  w ← world
  assign (λ cs. record cs { state = closing })
  packet ← built (build_close w.cs.local_port w.cs.remote_port w.cs.local_seq)
  wrote ← write packet
  assign (λ cs. record cs { state = closed })
  return wrote
  where
    world : M World
    world w = (ok w, w)

-- HandshakeHandler.State.
abbrev pub state_of : World → State
state_of w = w.cs.state

-- HandshakeConfig, without its delays and its cookie, which no method reads.
pub record HandshakeConfig : Type 0 where
  pub service_code : List ℕ
  pub ccid : ℕ
  pub max_retries : ℕ

-- DefaultHandshakeConfig.
abbrev pub default_handshake_config : HandshakeConfig
default_handshake_config = record { service_code = service_code_v2ray; ccid = 4; max_retries = 3 }
