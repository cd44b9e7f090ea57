-- ===== src/Dccp/Packet.antt =====
-- The packet codec of app/transport/dccp/packet.go. A buffer is a list of bytes; `set` and
-- `copy_at` are its writes, and each index or slice expression that can leave the buffer stands
-- under `in_range`. `& 0x0F` is `% 16`, `<< 4` is `* 16`, and an `|` of disjoint bits is `+`.
pub mod Fold
pub mod Total
pub mod Writes
pub mod Layout
pub mod RoundTrip
pub mod Clip
pub mod Short
use oiwest_core.Common.{
  ℕ, zero, suc, ◌+◌, ◌-◌, ◌*◌, ◌/◌, ◌%◌, ◌^◌, ◌<◌, Bool, true, false, ◌&&◌, ◌||◌, not, List, [],
  ◌∷◌, ◌++◌, map, ltb, leb, ◌==◌, if◌then◌else◌, length, set, take, drop, replicate, Result, ok,
  err, panic, ◌>>=◌, ◌>>◌, check, in_range, copy_at, slice, be16, be64, byte_at, u16_at, u64_at,
  min,
}
use oiwest_core.Dccp.Types.{
  Header, zero_header, Opt, Error, packet_too_small, invalid_option, eof, unexpected_eof,
  header_size,
}
use oiwest_core.Dccp.OptionType

-- optionSize: the sum of the options' length fields.
unfoldable pub option_size : List Opt → ℕ
option_size [] = 0
option_size (o ∷ os) = o.len + option_size os

abbrev pub padding_size : ℕ → ℕ
padding_size size = (4 - size % 4) % 4

-- dataOffset: a byte, cut to the 15 words that its four bits can say.
abbrev pub data_offset : ℕ → ℕ
data_offset total =
    let words = (header_size + total) / 4 % 256 in if ltb 15 words then 15 else words

-- The sum over the 16-bit words, an odd last byte counted high, in a uint32 that wraps.
pub word_sum : List ℕ → ℕ → ℕ
word_sum [] sum = sum
word_sum (b ∷ []) sum = (sum + b * 256) % 2 ^ 32
word_sum (a ∷ b ∷ rest) sum = word_sum rest ((sum + (a * 256 + b)) % 2 ^ 32)

-- `for sum>>16 != 0`, on fuel.
pub fold_loop : ℕ → ℕ → ℕ
fold_loop zero sum = sum
fold_loop (suc fuel) sum = elim (sum / 2 ^ 16 == 0) [
  | true ↦ sum
  | false ↦ fold_loop fuel ((sum % 2 ^ 16 + sum / 2 ^ 16) % 2 ^ 32)
]

-- The loop gets three rounds; `^uint16(sum)` is the complement.
pub compute_checksum : List ℕ → ℕ
compute_checksum bytes = 2 ^ 16 - 1 - fold_loop 3 (word_sum bytes 0) % 2 ^ 16

-- The loop over the options: the two index writes and the slice expression may panic.
pub write_options : List Opt → ℕ → List ℕ → Result Error (ℕ × List ℕ)
write_options [] offset buf = ok (offset, buf)
write_options (o ∷ os) offset buf = do
  in_range (ltb offset (length buf))
  in_range (ltb (offset + 1) (length buf))
  in_range (leb 2 o.len && leb (offset + o.len) (length buf))
  let buf' = set (set buf offset o.option_type) (offset + 1) o.len
  write_options os (offset + o.len) (copy_at buf' (offset + 2) (take (o.len - 2) o.body))

pub write_padding : ℕ → ℕ → List ℕ → Result Error (List ℕ)
write_padding zero offset buf = ok buf
write_padding (suc n) offset buf = do
  in_range (ltb offset (length buf))
  write_padding n (offset + 1) (set buf offset OptionType.padding)

-- The fixed fields: the ports, the offset and type bytes and the caller's checksum.
pub write_header : Header → ℕ → List ℕ → List ℕ
write_header hdr words buf =
    let ports = copy_at (copy_at buf 0 (be16 hdr.source_port)) 2 (be16 hdr.dest_port) in
    let offsets = set ports 4 (words * 16 % 256 + hdr.cc_val % 16) in
    let types = set offsets 5 (hdr.packet_type % 16 + hdr.extended % 2 * 128) in
    copy_at types 6 (be16 hdr.checksum)

-- `if hdr.Extended == 1`: eight bytes at index 8, though the header ends at 12.
pub write_sequence : Header → List ℕ → Result Error (List ℕ)
write_sequence hdr buf =
    if hdr.extended == 1
    then in_range (leb 16 (length buf)) >> ok (copy_at buf 8 (be64 hdr.sequence_number))
    else ok buf

-- Behind the header: the options, the padding, and the payload in what is left.
pub write_body : List Opt → List ℕ → List ℕ → Result Error (List ℕ)
write_body options payload buf = do
  let pad = padding_size (option_size options)
  (offset, buf') ← write_options options header_size buf
  buf'' ← write_padding pad offset buf'
  in_range (leb (offset + pad) (length buf''))
  ok (copy_at buf'' (offset + pad) payload)

-- EncodeDCCPPacket.
pub encode : Header → List Opt → List ℕ → Result Error (List ℕ)
encode hdr options payload = do
  let size = option_size options
  let total = size + padding_size size
  let fresh = replicate (header_size + total + length payload) 0
  buf ← write_sequence hdr (write_header hdr (data_offset total) fresh)
  packet ← write_body options payload buf
  ok (copy_at packet 6 (be16 (compute_checksum packet)))

-- What one round of parseOptions does at a type byte that is no padding; `next` is the rest of
-- the loop, from the offset that the option's length leads to. `make` and the slice expression may panic.
pub parse_at :
    (List ℕ → List Opt → ℕ → Result Error (List Opt × ℕ))
    → ℕ
    → List ℕ
    → List Opt
    → ℕ
    → Result Error (List Opt × ℕ)
parse_at next t [] options offset = ok (options, offset)
parse_at next t (l ∷ rest) options offset =
    if ltb l 2
    then err invalid_option
    else if ltb (length rest + 2) l
    then ok (options, offset)
    else (do
      in_range (leb 2 l && leb l (length rest + 2))
      next (drop l (t ∷ l ∷ rest))
          (options ++ record { option_type = t; len = l; body = take (l - 2) rest } ∷ [])
          (offset + l))

-- The loop of parseOptions over `data[offset:]`, on fuel: running out is a panic.
pub parse_loop : ℕ → List ℕ → List Opt → ℕ → Result Error (List Opt × ℕ)
parse_loop zero rest options offset = panic
parse_loop (suc fuel) [] options offset = ok (options, offset)
parse_loop (suc fuel) (t ∷ rest) options offset = elim (t == OptionType.padding) [
  | true ↦ parse_loop fuel rest options (offset + 1)
  | false ↦ parse_at (parse_loop fuel) t rest options offset
]

-- parseOptions.
pub parse_options : List ℕ → Result Error (List Opt × ℕ)
parse_options bytes = parse_loop (length bytes + 1) bytes [] 0

-- The header fields that DecodeDCCPPacket reads. The sequence number is read only where the
-- extended bit is set.
unfoldable pub decode_header : List ℕ → Header
decode_header bytes = record zero_header {
  source_port = u16_at bytes 0;
  dest_port = u16_at bytes 2;
  data_offset = byte_at bytes 4 / 16 % 16;
  cc_val = byte_at bytes 4 % 16;
  checksum = u16_at bytes 6;
  packet_type = byte_at bytes 5 % 16;
  extended = byte_at bytes 5 / 128 % 2;
  sequence_number = if byte_at bytes 5 / 128 % 2 == 1 then u64_at bytes 8 else 0;
}

-- DecodeDCCPPacket. It recomputes the checksum, writes the stored one back and ignores a
-- mismatch, so neither the result nor the bytes depend on it.
pub decode : List ℕ → Result Error (Header × List Opt × List ℕ)
decode bytes = do
  check (leb header_size (length bytes)) packet_too_small
  let hdr = decode_header bytes
  check (not (hdr.extended == 1) || leb 16 (length bytes)) packet_too_small
  let header_end = min (hdr.data_offset * 4) (length bytes)
  in_range (leb header_size header_end)
  (options, opt_end) ← parse_options (slice bytes header_size header_end)
  in_range (leb (header_size + opt_end) (length bytes))
  ok (hdr, options, drop (header_size + opt_end) bytes)
