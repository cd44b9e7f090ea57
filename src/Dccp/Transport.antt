-- ===== src/Dccp/Transport.antt =====
-- The transport of app/transport/dccp/transport.go. Its world is that of the handshake: the state of the
-- connection, the bytes that still arrive, the outcomes of writes and what was sent. Deadlines and addresses are
-- left out, and the acknowledgement of a goroutine is made at once.
pub mod Laws
use oiwest_core.Common.{
  ℕ, zero, suc, ◌+◌, ◌-◌, ◌*◌, ◌/◌, ◌%◌, ◌^◌, Bool, true, false, not, ◌&&◌, ◌||◌, List, [], ◌∷◌,
  ◌++◌, ltb, leb, ◌==◌, if◌then◌else◌, length, take, drop, replicate, copy_at, min, Option, none,
  some, Result, ok, err, panic,
}
use oiwest_core.Common.Window.{window, moved}
use oiwest_core.Dccp.Types.{
  Header, Error, packet_too_small, invalid_option, eof, unexpected_eof, header_size,
}
use oiwest_core.Dccp.PacketType
use oiwest_core.Dccp.Build.{build_data, build_ack, build_close}
use oiwest_core.Dccp.Read.{read_packet}
use oiwest_core.Dccp.Handshake.{ConnState, new_conn_state, World, left_over}
use oiwest_core.Dccp.Handshake

-- The errors of the methods.
pub data Failure : Type 0 where
  transport_closed end_of_file connection_reset write_failed : Failure
  packet_error : Error → Failure

-- DCCPTransport; `reported` is what the congestion control was told of.
pub record Transport : Type 0 where
  pub world : World
  pub max_packet_size : ℕ
  pub rx_buf : List ℕ
  pub rx_offset : ℕ
  pub rx_len : ℕ
  pub closed : Bool
  pub reported : List ℕ

-- NewDCCPTransport over a connection, with the settings' size of a packet.
unfoldable pub new_transport : ℕ → World → Transport
new_transport max_packet_size w = record {
  world = record w { cs = new_conn_state false };
  max_packet_size = max_packet_size;
  rx_buf = replicate (64 * 1024) 0;
  rx_offset = 0;
  rx_len = 0;
  closed = false;
  reported = [];
}

-- getServiceCode, on the code of the settings; without settings it panics.
unfoldable pub get_service_code : Option (List ℕ) → Result Failure (List ℕ)
get_service_code none = panic
get_service_code (some code) =
    if leb 4 (length code) then ok (take 4 code) else ok (79 ∷ 73 ∷ 87 ∷ 69 ∷ [])

-- A port of the connection, or 1.
abbrev pub port_or_one : ℕ → ℕ
port_or_one port = if port == 0 then 1 else port

-- The most bytes of a packet's payload.
unfoldable pub max_payload : ℕ → ℕ
max_payload size = if leb size (header_size + 12) then 1400 else size - (header_size + 12)

-- What Write does with a chunk: the next sequence number, the packet and its write. An error comes with the
-- bytes that were written before.
unfoldable pub sent_packet :
    ℕ → ℕ → Result Failure Bool × World → Transport → Result (ℕ × Failure) ℕ × Transport
sent_packet written n (ok true, w) t =
    (ok (written + n), record t { world = w; reported = t.reported ++ w.cs.local_seq ∷ [] })
sent_packet written n (ok false, w) t = (err (written, write_failed), record t { world = w })
sent_packet written n (err e, w) t = (err (written, e), record t { world = w })
sent_packet written n (panic, w) t = (panic, record t { world = w })

abbrev pub outcome : Result Handshake.Failure Bool × World → Result Failure Bool × World
outcome (ok b, w) = (ok b, w)
outcome (err e, w) = (err write_failed, w)
outcome (panic, w) = (panic, w)

unfoldable pub write_built :
    ℕ → ℕ → Result Error (List ℕ) → Transport → Result (ℕ × Failure) ℕ × Transport
unfolding sent_packet
write_built written n (ok packet) t =
    sent_packet written n (outcome (Handshake.write packet t.world)) t
write_built written n (err e) t = (err (written, packet_error e), t)
write_built written n panic t = (panic, t)

unfoldable pub write_chunk : ℕ → List ℕ → Transport → Result (ℕ × Failure) ℕ × Transport
unfolding write_built
write_chunk written chunk t =
    let seq = (t.world.cs.local_seq + 1) % 2 ^ 64 in
    let cs : ConnState = record (t.world.cs) { local_seq = seq } in
    let t' : Transport = record t { world = record (t.world) { cs = cs } } in
    write_built written (length chunk)
      (build_data (port_or_one cs.local_port) (port_or_one cs.remote_port) seq chunk) t'

-- The loop of Write over what is left, on fuel.
abbrev pub go_on :
    (ℕ → Transport → Result (ℕ × Failure) ℕ × Transport)
    → Result (ℕ × Failure) ℕ × Transport
    → Result (ℕ × Failure) ℕ × Transport
go_on next (ok n, t) = next n t
go_on next (err e, t) = (err e, t)
go_on next (panic, t) = (panic, t)

unfoldable pub write_loop : ℕ → ℕ → List ℕ → Transport → Result (ℕ × Failure) ℕ × Transport
unfolding write_chunk max_payload
write_loop zero written bytes t = (ok written, t)
write_loop (suc fuel) written [] t = (ok written, t)
write_loop (suc fuel) written (b ∷ bs) t =
    let n = max_payload t.max_packet_size in
    go_on (λ w t'. write_loop fuel w (drop n (b ∷ bs)) t') (write_chunk written (take n (b ∷ bs)) t)

-- Write.
unfoldable pub write : List ℕ → Transport → Result (ℕ × Failure) ℕ × Transport
unfolding write_loop
write bytes t =
    if t.closed then (err (0, transport_closed), t) else write_loop (length bytes) 0 bytes t

-- A packet to the connection, whose error is dropped; it may panic.
unfoldable pub send_dropped :
    Result Error (List ℕ) → Transport → Result Failure (Unit {0}) × Transport
send_dropped (ok packet) t = (ok tt, record t { world = (Handshake.write packet t.world).1 })
send_dropped (err e) t = (ok tt, record t { world = (Handshake.write [] t.world).1 })
send_dropped panic t = (panic, t)

-- sendClose and sendAck.
unfoldable pub send_close : Transport → Result Failure (Unit {0}) × Transport
unfolding send_dropped
send_close t =
    send_dropped (build_close t.world.cs.local_port t.world.cs.remote_port t.world.cs.local_seq) t

unfoldable pub send_ack : ℕ → Transport → Result Failure (Unit {0}) × Transport
unfolding send_dropped
send_ack seq t =
    send_dropped
      (build_ack (port_or_one t.world.cs.local_port) (port_or_one t.world.cs.remote_port)
        ((seq + 1) % 2 ^ 64))
      t

-- markClosed.
abbrev pub mark_closed : Transport → Transport
mark_closed t = record t { closed = true }

-- A payload in the receive buffer.
unfoldable pub received : List ℕ → Transport → Transport
received bytes t = record t {
  rx_buf = copy_at t.rx_buf 0 bytes;
  rx_offset = 0;
  rx_len = min (length bytes) (length t.rx_buf);
}

-- The end of a step that may have panicked.
abbrev pub then_fail :
    Failure → Result Failure (Unit {0}) × Transport → Result Failure (Unit {0}) × Transport
then_fail e (ok _, t) = (err e, mark_closed t)
then_fail e (err e', t) = (err e', t)
then_fail e (panic, t) = (panic, t)

-- The switch of readNextPacket; `more` is the next round of its loop.
unfoldable pub on_packet :
    (Transport → Result Failure (Unit {0}) × Transport)
    → Header
    → List ℕ
    → Transport
    → Result Failure (Unit {0}) × Transport
unfolding received send_close send_ack
on_packet more hdr payload t =
    let cs : ConnState = t.world.cs in
    if hdr.packet_type == PacketType.data_only
    then (
      ok tt,
      record (received payload t) {
        world = record (t.world) {
          cs = record cs { remote_ack = (hdr.sequence_number + 1) % 2 ^ 64 };
        };
      },
    )
    else if hdr.packet_type == PacketType.data_ack
    then send_ack hdr.sequence_number (received payload t)
    else if hdr.packet_type == PacketType.ack
    then more (record t {
      world = record (t.world) { cs = record cs { local_ack = hdr.sequence_number } };
    })
    else if hdr.packet_type == PacketType.close || hdr.packet_type == PacketType.close_req
    then then_fail end_of_file (send_close t)
    else if hdr.packet_type == PacketType.reset
    then (err connection_reset, mark_closed t)
    else more t

-- An error of ReadFullDCCPPacket: at the end of the stream the transport is closed.
abbrev pub read_failed : Error → Transport → Result Failure (Unit {0}) × Transport
read_failed eof t = (err (packet_error eof), mark_closed t)
read_failed packet_too_small t = (err (packet_error packet_too_small), t)
read_failed invalid_option t = (err (packet_error invalid_option), t)
read_failed unexpected_eof t = (err (packet_error unexpected_eof), t)

-- readNextPacket, on fuel.
unfoldable pub read_next_packet : ℕ → Transport → Result Failure (Unit {0}) × Transport
unfolding on_packet
read_next_packet zero t = (err end_of_file, t)
read_next_packet (suc fuel) t =
    let t' : Transport = record t {
      world = record (t.world) { inbox = left_over t.world.inbox };
    } in
    elim (read_packet t.world.inbox) [
      | ok ((hdr, _, payload), rest) ↦ on_packet (read_next_packet fuel) hdr payload t'
      | err e ↦ read_failed e t'
      | panic ↦ (panic, t')
    ]

-- Read into `size` bytes, off the buffer.
unfoldable pub take_buffered : ℕ → Transport → Result Failure (List ℕ) × Transport
take_buffered size t =
    let n = min size t.rx_len in
    (
      ok (take n (window t.rx_buf t.rx_offset t.rx_len)),
      record t { rx_offset = moved t.rx_offset t.rx_len n; rx_len = t.rx_len - n },
    )

abbrev pub then_take :
    ℕ → Result Failure (Unit {0}) × Transport → Result Failure (List ℕ) × Transport
then_take size (ok _, t) = take_buffered size t
then_take size (err e, t) = (err e, t)
then_take size (panic, t) = (panic, t)

-- Read; a round of its loop takes twelve bytes or ends it.
unfoldable pub read : ℕ → Transport → Result Failure (List ℕ) × Transport
unfolding take_buffered read_next_packet
read size t =
    if t.closed
    then (err transport_closed, t)
    else if t.rx_len == 0
    then then_take size (read_next_packet (suc (length t.world.inbox)) t)
    else take_buffered size t

-- Close.
abbrev pub then_closed :
    Result Failure (Unit {0}) × Transport → Result Failure (Unit {0}) × Transport
then_closed (ok _, t) = (ok tt, mark_closed t)
then_closed (err e, t) = (err e, t)
then_closed (panic, t) = (panic, t)

unfoldable pub close : Transport → Result Failure (Unit {0}) × Transport
unfolding send_close
close t = if t.closed then (ok tt, t) else then_closed (send_close t)
