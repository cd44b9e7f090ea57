-- ===== src/Dccp/Packet/Short.antt =====
-- A buffer that has no room for an extended sequence number.
use oiwest_core.Common.{
  ℕ, zero, ◌+◌, ◌<◌, ◌≡◌, List, length, replicate, length-replicate, panic, err, ◌≤◌, arith,
}
use oiwest_core.Common.Lists.{length-set}
use oiwest_core.Common.Copying.{length-copy_at}
use oiwest_core.Dccp.Types.{Header, Opt, header_size, packet_too_small}
use oiwest_core.Dccp.Packet.{
  option_size, padding_size, data_offset, write_header, write_sequence, encode, decode_header,
  decode,
}

length-write_header :
    (hdr : Header) (words : ℕ) (buf : List ℕ) → length (write_header hdr words buf) ≡ length buf
unfolding write_header
length-write_header hdr words buf =
    rw (length-copy_at, length-set, length-set, length-copy_at, length-copy_at)

write_sequence_short :
    (hdr : Header) (buf : List ℕ)
    → hdr.extended ≡ 1
    → length buf < 16
    → write_sequence hdr buf ≡ panic
unfolding write_sequence
write_sequence_short hdr buf e h = ground arith

-- With an extended sequence number and less than four bytes behind the header EncodeDCCPPacket
-- panics: it writes eight bytes at index 8 of a shorter buffer.
pub encode_short :
    (hdr : Header) (options : List Opt) (payload : List ℕ)
    → hdr.extended ≡ 1
    → option_size options + padding_size (option_size options) + length payload < 4
    → encode hdr options payload ≡ panic
unfolding encode
encode_short hdr options payload e h =
    let total = option_size options + padding_size (option_size options) in
    let zeros : List ℕ = replicate (header_size + total + length payload) 0 in
    let size = length-replicate (header_size + total + length payload) zero in
    let short =
      write_sequence_short hdr (write_header hdr (data_offset total) zeros) e
        (omega (arith, length-write_header hdr (data_offset total) zeros)) in
    rw short

-- DecodeDCCPPacket refuses twelve to fifteen bytes with the extended bit set.
pub decode_short :
    (bytes : List ℕ)
    → header_size ≤ length bytes
    → length bytes < 16
    → (decode_header bytes).extended ≡ 1
    → decode bytes ≡ err packet_too_small
unfolding decode
decode_short bytes h k e = ground arith
