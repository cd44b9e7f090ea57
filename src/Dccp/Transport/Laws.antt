-- ===== src/Dccp/Transport/Laws.antt =====
-- What a transport makes of what another one writes.
use oiwest_core.Common.{
  ==_iff, if_true, if_false, ℕ, zero, suc, ◌+◌, ◌%◌, ◌^◌, ◌≤◌, ◌<◌, ◌≡◌, refl, sym, ap, ◌∙◌, Bool,
  true, false, List, [], ◌∷◌, ◌++◌, length, take, drop, Result, ok, err, panic, arith,
}
use oiwest_core.Common.Copying.{take_all, drop_all}
use oiwest_core.Dccp.Types.{packet_too_small}
use oiwest_core.Dccp.Build.Laws.{InRange, build_data_short, read_packet-build_data, control_panics}
use oiwest_core.Dccp.Read.{read_packet}
use oiwest_core.Dccp.Handshake.{World, ConnState, left_over}
use oiwest_core.Dccp.Handshake
use oiwest_core.Dccp.Transport.{
  outcome, Failure, packet_error, Transport, port_or_one, max_payload, sent_packet, write_built,
  write_chunk, go_on, write_loop, write, send_dropped, send_close, read_next_packet, then_take,
  read, then_closed, close,
}

-- The next sequence number, and that the ports and it are in range.
abbrev pub next_seq : Transport → ℕ
next_seq t = (t.world.cs.local_seq + 1) % 2 ^ 64

abbrev pub PortsFit : Transport → Type 0
PortsFit t = (t.world.cs.local_port < 2 ^ 16) × (t.world.cs.remote_port < 2 ^ 16)

port_or_one-lt : (p : ℕ) → p < 2 ^ 16 → port_or_one p < 2 ^ 16
port_or_one-lt p h = ground arith

ports-InRange :
    (t : Transport)
    → PortsFit t
    → InRange (port_or_one t.world.cs.local_port) (port_or_one t.world.cs.remote_port) (next_seq t)
ports-InRange t (l, r) = record {
  source = port_or_one-lt t.world.cs.local_port l;
  dest = port_or_one-lt t.world.cs.remote_port r;
  number = omega arith;
}

-- The transport at the write of a packet.
abbrev pub counted : Transport → Transport
counted t =
    let cs : ConnState = record (t.world.cs) { local_seq = next_seq t } in
    record t { world = record (t.world) { cs = cs } }

write_chunk_short :
    (written : ℕ) (chunk : List ℕ) (t : Transport)
    → length chunk < 4
    → write_chunk written chunk t ≡ (panic, counted t)
unfolding write_chunk write_built
write_chunk_short written chunk t h =
    rw
      (build_data_short (port_or_one t.world.cs.local_port) (port_or_one t.world.cs.remote_port)
        (next_seq t) chunk h)
      refl

abbrev sent_world : List ℕ → World → World
sent_world packet w = record w { sent = w.sent ++ packet ∷ [] }

write_next_ok :
    (writes : List Bool) (packet : List ℕ) (w : World)
    → writes ≡ []
    → Handshake.write_next writes packet w ≡ (ok true, sent_world packet w)
unfolding Handshake.write_next
write_next_ok [] packet w h = refl
write_next_ok (b ∷ bs) packet w h = cc h

write_ok :
    (packet : List ℕ) (w : World)
    → w.writes ≡ []
    → Handshake.write packet w ≡ (ok true, sent_world packet w)
unfolding Handshake.write
write_ok packet w h = write_next_ok w.writes packet w h

-- With no write to fail, a chunk of four bytes or more is sent in a packet that ReadFullDCCPPacket refuses.
write_chunk_long :
    (written : ℕ) (chunk : List ℕ) (t : Transport)
    → PortsFit t
    → t.world.writes ≡ []
    → 4 ≤ length chunk
    → (packet : List ℕ) × (t' : Transport) × (write_chunk written chunk t
        ≡ (ok (written + length chunk), t'))
      × (t'.world.sent ≡ t.world.sent ++ packet ∷ [])
      × ((after : List ℕ) → read_packet (packet ++ after) ≡ err packet_too_small)
unfolding write_chunk write_built sent_packet
write_chunk_long written chunk t ports none_ h =
    let built =
      read_packet-build_data (port_or_one t.world.cs.local_port)
        (port_or_one t.world.cs.remote_port) (next_seq t) chunk in
    let ranges = ports-InRange t ports in
    let (packet, made, _) = built [] ranges h in
    let refused : (after : List ℕ) → read_packet (packet ++ after) ≡ err packet_too_small = λ after.
      let (packet', made', r) = built after ranges h in
      let same : packet' ≡ packet = cc (made, made') in
      ap (λ p. read_packet (p ++ after)) (sym same) ∙ r in
    (
      packet,
      record (counted t) {
        world = sent_world packet (counted t).world;
        reported = t.reported ++ next_seq t ∷ [];
      },
      ap (λ r. write_built written (length chunk) r (counted t)) made
          ∙ ap (λ r. sent_packet written (length chunk) (outcome r) (counted t))
              (write_ok packet (counted t).world none_),
      refl,
      refused,
    )

read_next_refused :
    (fuel : ℕ) (t : Transport)
    → read_packet t.world.inbox ≡ err packet_too_small
    → (t' : Transport) × (read_next_packet (suc fuel) t ≡ (err (packet_error packet_too_small), t'))
unfolding read_next_packet
read_next_refused fuel t h = (
  record t { world = record (t.world) { inbox = left_over t.world.inbox } },
  rw (read_next_packet, h) refl,
)

-- A transport that is open, with nothing in its receive buffer, answers an error to a Read of any size where the
-- next packet is refused as too small.
read_refused :
    (size : ℕ) (t : Transport)
    → t.closed ≡ false
    → t.rx_len ≡ 0
    → read_packet t.world.inbox ≡ err packet_too_small
    → (t' : Transport) × (read size t ≡ (err (packet_error packet_too_small), t'))
unfolding read
read_refused size t open_ empty h =
    let (t', e) = read_next_refused (length t.world.inbox) t h in
    (t', if_false _ open_ ∙ if_true _ ((==_iff t.rx_len 0).1 empty) ∙ ap (then_take size) e)

-- Close panics on every open transport, and does nothing on a closed one.
pub close_panics :
    (t : Transport)
    → (t.closed ≡ false → close t ≡ (panic, t)) × (t.closed ≡ true → close t ≡ (ok tt, t))
unfolding close send_close send_dropped
close_panics t =
    let (_, never, _) =
      control_panics t.world.cs.local_port t.world.cs.remote_port t.world.cs.local_seq 0 in
    (λ h. if_false _ h ∙ ap (λ r. then_closed (send_dropped r t)) never, if_true _)

write_loop_nil : (fuel w w' : ℕ) (t : Transport) → w ≡ w' → write_loop fuel w [] t ≡ (ok w', t)
unfolding write_loop
write_loop_nil zero w w' t h = ap (λ k. (ok k, t)) h
write_loop_nil (suc fuel) w w' t h = ap (λ k. (ok k, t)) h

-- A Write of at most one packet's payload on an open transport whose ports are in range and whose writes succeed:
-- with no bytes it answers 0 and sends nothing; with one, two or three bytes it panics; with four or more it answers their number, and every open transport that has nothing in its receive buffer
-- and gets the packet next, whatever comes behind it, answers an error to a Read of any size.
pub write-read :
    (bytes : List ℕ) (t : Transport)
    → t.closed ≡ false
    → PortsFit t
    → t.world.writes ≡ []
    → length bytes ≤ max_payload t.max_packet_size
    → (bytes ≡ [] → write bytes t ≡ (ok 0, t))
      × (0 < length bytes → length bytes < 4 → (t' : Transport) × (write bytes t ≡ (panic, t')))
      × (4 ≤ length bytes
          → (packet : List ℕ) × (t' : Transport) × (write bytes t ≡ (ok (length bytes), t'))
            × (t'.world.sent ≡ t.world.sent ++ packet ∷ [])
            × ((size : ℕ) (after : List ℕ) (peer : Transport)
                → peer.closed ≡ false
                → peer.rx_len ≡ 0
                → peer.world.inbox ≡ packet ++ after
                → (peer' : Transport) × (read size peer
                    ≡ (err (packet_error packet_too_small), peer'))))
unfolding write write_loop
write-read [] t open_ ports none_ fits =
    ((λ e. if_false _ open_), (λ p h. absurd (omega arith)), (λ h. absurd (omega arith)))
write-read (b ∷ bs) t open_ ports none_ fits =
    let next : ℕ → Transport → Result (ℕ × Failure) ℕ × Transport =
      λ w t'. write_loop (length bs) w (drop (max_payload t.max_packet_size) (b ∷ bs)) t' in
    let n = max_payload t.max_packet_size in
    let one : take n (b ∷ bs) ≡ b ∷ bs = take_all n (b ∷ bs) fits in
    let none_left : drop n (b ∷ bs) ≡ [] = drop_all n (b ∷ bs) fits in
    (
      (λ e. cc e),
      λ p h. (
        counted t,
        if_false _ open_
            ∙ ap (λ r. go_on next (write_chunk 0 r t)) one
            ∙ ap (go_on next) (write_chunk_short 0 (b ∷ bs) t h),
      ),
      λ h.
          let (packet, t', made, sent, refused) = write_chunk_long 0 (b ∷ bs) t ports none_ h in
          (
            packet,
            t',
            if_false _ open_
                ∙ ap (λ r. go_on next (write_chunk 0 r t)) one
                ∙ ap (go_on next) made
                ∙ ap (λ r. write_loop (length bs) (0 + length (b ∷ bs)) r t') none_left
                ∙ write_loop_nil (length bs) (0 + length (b ∷ bs)) (length (b ∷ bs)) t'
                    (omega arith),
            sent,
            λ size after peer o e i. read_refused size peer o e (ap read_packet i ∙ refused after),
          ),
    )
