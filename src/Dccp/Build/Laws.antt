-- ===== src/Dccp/Build/Laws.antt =====
-- What the builders' packets are to a reader.
use oiwest_core.Common.{
  ◌>>=◌, ℕ, ◌+◌, ◌*◌, ◌/◌, ◌^◌, ◌≤◌, ◌<◌, ◌≡◌, refl, ◌∙◌, List, [], ◌∷◌, ◌++◌, length, ok, err,
  panic, arith, u32_at,
}
use oiwest_core.Dccp.Types.{Header, packet_too_small}
use oiwest_core.Dccp.PacketType
use oiwest_core.Dccp.Packet.{decode_header, compute_checksum, option_size, decode}
use oiwest_core.Dccp.Packet.Short.{encode_short, decode_short}
use oiwest_core.Dccp.Packet.Layout.{unsealed, header_bytes, encode_layout}
use oiwest_core.Dccp.Packet.RoundTrip.{received, decode-encode}
use oiwest_core.Dccp.Build.{extended_header, build_ack, build_close, build_reset, build_data}
use oiwest_core.Dccp.Read.{read_packet}
use oiwest_core.Dccp.Read.Laws.{read_packet_lem}

-- BuildAckPacket, BuildClosePacket and BuildResetPacket panic on every input.
pub control_panics :
    (src dst seq reason : ℕ)
    → (build_ack src dst seq ≡ panic)
      × (build_close src dst seq ≡ panic)
      × (build_reset src dst seq reason ≡ panic)
unfolding build_ack build_close build_reset option_size
control_panics src dst seq reason = (
  encode_short _ [] [] refl (omega arith),
  encode_short _ [] [] refl (omega arith),
  encode_short _ [] (reason ∷ []) refl (omega arith),
)

-- The ranges of the arguments of a builder.
pub record InRange (src dst seq : ℕ) : Type 0 where
  pub source : src < 2 ^ 16
  pub dest : dst < 2 ^ 16
  pub number : seq < 2 ^ 64

-- BuildDataPacket panics on less than four bytes of payload.
pub build_data_short :
    (src dst seq : ℕ) (payload : List ℕ)
    → length payload < 4
    → build_data src dst seq payload ≡ panic
unfolding build_data option_size
build_data_short src dst seq payload h = encode_short _ [] payload refl (omega arith)

-- On four or more bytes of payload, and arguments in range, the packet of BuildDataPacket is
-- decoded to the same ports, type and payload, and to a sequence number whose low half is the
-- payload's first four bytes.
pub build_data_long :
    (src dst seq : ℕ) (payload : List ℕ)
    → InRange src dst seq
    → 4 ≤ length payload
    → (bytes : List ℕ) × (build_data src dst seq payload ≡ ok bytes)
      × (hdr : Header) × (decode bytes ≡ ok (hdr, [], payload))
      × (hdr.source_port ≡ src)
      × (hdr.dest_port ≡ dst)
      × (hdr.packet_type ≡ PacketType.data_only)
      × (hdr.sequence_number ≡ seq / 2 ^ 32 * 2 ^ 32 + u32_at payload 0)
unfolding build_data option_size
build_data_long src dst seq payload r h =
    let start = extended_header PacketType.data_only src dst seq in
    let (bytes, made, read) =
      decode-encode start [] payload (omega arith) tt (omega arith) (λ e. omega arith) in
    (bytes, made, received start [] payload, read, refl, refl, refl, refl)

-- ReadFullDCCPPacket cannot read what BuildDataPacket wrote: with no option in the header it reads
-- twelve bytes, too few for the extended sequence number.
pub read_packet-build_data :
    (src dst seq : ℕ) (payload after : List ℕ)
    → InRange src dst seq
    → 4 ≤ length payload
    → (bytes : List ℕ) × (build_data src dst seq payload ≡ ok bytes)
      × (read_packet (bytes ++ after) ≡ err packet_too_small)
unfolding build_data option_size header_bytes decode_header
read_packet-build_data src dst seq payload after r h =
    let start = extended_header PacketType.data_only src dst seq in
    let sum = compute_checksum (unsealed start [] payload) in
    let head : List ℕ = header_bytes start 3 sum in
    let cut : read_packet (head ++ ([] ++ (payload ++ after)))
        ≡ (decode (head ++ []) >>= λ p. ok (p, payload ++ after)) =
      read_packet_lem head [] (payload ++ after) refl refl in
    (
      head ++ payload,
      encode_layout start [] payload tt (λ e. h),
      cut ∙ rw (decode_short (head ++ []) (omega arith) (omega arith) refl) refl,
    )
