-- ===== src/Dccp/Build/Request.antt =====
-- The request packet of BuildRequestPacket on its way to a server.
use oiwest_core.Common.{ℕ, ◌≡◌, refl, sym, ◌∙◌, List, [], ◌∷◌, ◌++◌, ok, arith}
use oiwest_core.Dccp.Types.{Header}
use oiwest_core.Dccp.PacketType
use oiwest_core.Dccp.Packet.{compute_checksum, option_size, decode}
use oiwest_core.Dccp.Packet.Clip.{clip_all, encode-clip}
use oiwest_core.Dccp.Packet.Layout.{unsealed, header_bytes, encode_layout}
use oiwest_core.Dccp.Packet.RoundTrip.{received, decode-encode}
use oiwest_core.Dccp.Build.{extended_header, request_options, build_request}
use oiwest_core.Dccp.Read.{read_packet}
use oiwest_core.Dccp.Packet.Writes.{body}
use oiwest_core.Dccp.Build.Laws.{InRange}
use oiwest_core.Dccp.Read.Laws.{read_packet_lem}

-- The options that come out of a request, for a service code of four bytes: of the cookie's six
-- bytes of data the last two are lost.
pub build_request_lem :
    (src dst seq a b c d : ℕ)
    → InRange src dst seq
    → (bytes : List ℕ) × (build_request src dst (a ∷ b ∷ c ∷ d ∷ []) seq ≡ ok bytes)
      × (hdr : Header) × (decode bytes
          ≡ ok (hdr, clip_all (request_options (a ∷ b ∷ c ∷ d ∷ [])), []))
      × (hdr.packet_type ≡ PacketType.request)
unfolding build_request option_size clip_all
build_request_lem src dst seq a b c d r =
    let start = extended_header PacketType.request src dst seq in
    let code : List ℕ = a ∷ b ∷ c ∷ d ∷ [] in
    let os = request_options code in
    let (bytes, made, read) =
      decode-encode start (clip_all os) [] (omega arith) (omega arith) (omega arith)
        (λ e. omega arith) in
    (bytes, sym (encode-clip start os []) ∙ made, received start (clip_all os) [], read, refl)

-- ReadFullDCCPPacket reads a request packet whole.
pub read_packet-build_request :
    (src dst seq a b c d : ℕ) (after : List ℕ)
    → InRange src dst seq
    → (bytes : List ℕ) × (build_request src dst (a ∷ b ∷ c ∷ d ∷ []) seq ≡ ok bytes)
      × (hdr : Header) × (read_packet (bytes ++ after)
          ≡ ok ((hdr, clip_all (request_options (a ∷ b ∷ c ∷ d ∷ [])), []), after))
      × (hdr.packet_type ≡ PacketType.request)
unfolding build_request option_size clip_all header_bytes
read_packet-build_request src dst seq a b c d after r =
    let start = extended_header PacketType.request src dst seq in
    let os = clip_all (request_options (a ∷ b ∷ c ∷ d ∷ [])) in
    let head : List ℕ = header_bytes start 9 (compute_checksum (unsealed start os [])) in
    let (bytes, made, hdr, read, kind) = build_request_lem src dst seq a b c d r in
    let laid = encode_layout start os [] (omega arith) (λ e. omega arith) in
    let same : bytes ≡ head ++ body os [] =
      cc (made, encode-clip start (request_options (a ∷ b ∷ c ∷ d ∷ [])) [], laid) in
    let cut = read_packet_lem head (body os []) after refl refl in
    (bytes, made, hdr, rw same (cut ∙ rw (← same, read) refl), kind)
