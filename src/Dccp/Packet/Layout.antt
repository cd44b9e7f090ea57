-- ===== src/Dccp/Packet/Layout.antt =====
-- Where EncodeDCCPPacket puts its parts: the fixed header, the options, the padding, the payload.
use oiwest_core.Common.{
  ℕ, zero, ◌+◌, ◌*◌, ◌%◌, ◌≤◌, ◌≡◌, refl, ap, ◌∙◌, inl, inr, List, [], ◌∷◌, ◌++◌, ◌==◌, ==_iff,
  if◌then◌else◌, Bool-cases, arith, length, take, drop, replicate, length-replicate, ok, le→leb,
  copy_at, be16, be64,
}
use oiwest_core.Common.Copying.{length-copy_at, replicate-add}
use oiwest_core.Dccp.Types.{Header, Opt, header_size}
use oiwest_core.Dccp.Packet.Writes.{AllSound, body, length-body, write_body_lem}
use oiwest_core.Dccp.Packet.{
  option_size, padding_size, data_offset, compute_checksum, write_header, write_sequence, encode,
}

-- The twelve bytes of the header: the last four are zero, or the high half of the sequence number.
unfoldable pub header_bytes : Header → ℕ → ℕ → List ℕ
header_bytes hdr words sum =
    be16 hdr.source_port
    ++ (be16 hdr.dest_port
        ++ ((words * 16 % 256 + hdr.cc_val % 16)
            ∷ (hdr.packet_type % 16 + hdr.extended % 2 * 128)
            ∷ (be16 sum
                ++ (if hdr.extended == 1
                    then take 4 (be64 hdr.sequence_number)
                    else 0 ∷ 0 ∷ 0 ∷ 0 ∷ []))))

pub length-header_bytes : (hdr : Header) (words sum : ℕ) → length (header_bytes hdr words sum) ≡ 12
unfolding header_bytes
length-header_bytes hdr words sum = elim (Bool-cases (hdr.extended == 1)) [
  | inl e ↦ rw e refl
  | inr e ↦ rw e refl
]

-- The header and the sequence number, written over zeros.
start_lem :
    (hdr : Header) (words n : ℕ)
    → (hdr.extended ≡ 1 → 4 ≤ n)
    → (mid : List ℕ) × (length mid ≡ n)
      × (write_sequence hdr (write_header hdr words (replicate (header_size + n) 0))
          ≡ ok (header_bytes hdr words hdr.checksum ++ mid))
unfolding write_sequence write_header header_bytes
start_lem hdr words n h = elim (Bool-cases (hdr.extended == 1)) [
  | inl e ↦ (
    copy_at zeros 0 low,
    length-copy_at zeros 0 low ∙ length-replicate n 0,
    rw (replicate-add 12 n zero, e, le→leb 16 (length (start ++ zeros)) (room ((==_iff _ _).0 e)))
        refl,
  )
  | inr e ↦ (zeros, length-replicate n 0, rw (replicate-add 12 n zero, e) refl)
]
  where
    zeros : List ℕ
    zeros = replicate n 0

    low : List ℕ
    low = drop 4 (be64 hdr.sequence_number)

    start : List ℕ
    start = write_header hdr words (replicate 12 0)

    room : hdr.extended ≡ 1 → 16 ≤ length (start ++ zeros)
    room e = omega (arith, h e, length-replicate n zero)

-- The data offset field of the packet, in words.
abbrev pub words_of : List Opt → ℕ
words_of options = data_offset (option_size options + padding_size (option_size options))

-- The packet before its checksum is put in.
abbrev pub unsealed : Header → List Opt → List ℕ → List ℕ
unsealed hdr options payload =
    header_bytes hdr (words_of options) hdr.checksum ++ body options payload

put_checksum :
    (hdr : Header) (words c : ℕ) (rest : List ℕ)
    → copy_at (header_bytes hdr words hdr.checksum ++ rest) 6 (be16 c)
      ≡ header_bytes hdr words c ++ rest
unfolding header_bytes
put_checksum hdr words c rest = elim (Bool-cases (hdr.extended == 1)) [
  | inl e ↦ rw e refl
  | inr e ↦ rw e refl
]

-- EncodeDCCPPacket on sound options, if an extended sequence number has room behind the header:
-- the fixed header with its checksum, the options, zeros up to a multiple of four, the payload.
pub encode_layout :
    (hdr : Header) (options : List Opt) (payload : List ℕ)
    → AllSound options
    → (hdr.extended ≡ 1 → 4 ≤ length (body options payload))
    → encode hdr options payload
      ≡ ok (
          header_bytes hdr (words_of options) (compute_checksum (unsealed hdr options payload))
          ++ body options payload)
unfolding encode
encode_layout hdr options payload sound room =
    let size = option_size options in
    let pad = padding_size size in
    let words = words_of options in
    let n = size + pad + length payload in
    let len = length-body options payload sound in
    let (mid, len_mid, started) = start_lem hdr words n (λ e. omega (arith, room e, len)) in
    let sum : header_size + (size + pad) + length payload ≡ header_size + n = omega arith in
    let head : List ℕ = header_bytes hdr words hdr.checksum in
    rw
      (
        sum,
        started,
        write_body_lem options payload head mid (length-header_bytes hdr words hdr.checksum) sound
            len_mid,
      )
      (ap ok (put_checksum hdr words _ (body options payload)))
