-- ===== src/Dccp/Packet/RoundTrip.antt =====
-- DecodeDCCPPacket on what EncodeDCCPPacket wrote.
use oiwest_core.Common.{
  ℕ, zero, suc, ◌+◌, ◌-◌, ◌*◌, ◌/◌, ◌^◌, ◌≤◌, ◌<◌, ◌≡◌, refl, sym, ap, ap₂, ◌∙◌, inl, inr, List, [],
  ◌∷◌, ◌++◌, ◌==◌, ==_iff, if◌then◌else◌, Bool-cases, arith, length, drop, replicate, length-append,
  length-replicate, append_assoc, append-nil, Result, ok, slice, le→ltb_false, le→leb, min, u32_at,
}
use oiwest_core.Common.Copying.{take-append_length, drop-append_length}
use oiwest_core.Dccp.Types.{Header, zero_header, Opt, Error, header_size}
use oiwest_core.Dccp.OptionType
use oiwest_core.Dccp.Packet.{
  option_size, padding_size, compute_checksum, encode, parse_at, parse_loop, parse_options,
  decode_header, decode,
}
use oiwest_core.Dccp.Packet.Fold.{compute_checksum-lt}
use oiwest_core.Dccp.Packet.Writes.{IsSound, AllSound, wire, length-wire, body, length-body}
use oiwest_core.Dccp.Packet.Layout.{
  header_bytes, length-header_bytes, words_of, unsealed, encode_layout,
}

-- The ranges of the fields that travel: what the Go types and the masks of the encoder allow.
pub record IsHeader (hdr : Header) : Type 0 where
  pub source : hdr.source_port < 2 ^ 16
  pub dest : hdr.dest_port < 2 ^ 16
  pub cc : hdr.cc_val < 16
  pub kind : hdr.packet_type < 16
  pub bit : hdr.extended < 2
  pub seq : hdr.sequence_number < 2 ^ 64

parse_loop-zeros :
    (pad fuel : ℕ) (options : List Opt) (offset : ℕ)
    → pad < fuel
    → parse_loop fuel (replicate pad 0) options offset ≡ ok (options, offset + pad)
unfolding parse_loop
parse_loop-zeros zero zero options offset h = elim h [ ]
parse_loop-zeros zero (suc fuel) options offset h = ap (λ n. ok (options, n)) (omega arith)
parse_loop-zeros (suc pad) zero options offset h = elim h [ ]
parse_loop-zeros (suc pad) (suc fuel) options offset h =
    parse_loop-zeros pad fuel options (offset + 1) (omega arith)
    ∙ ap (λ n. ok (options, n)) {x = offset + 1 + pad} (omega arith)

parse_at_one :
    (next : List ℕ → List Opt → ℕ → Result Error (List Opt × ℕ)) (o : Opt) (rest : List ℕ)
    (options : List Opt) (offset : ℕ)
    → IsSound o
    → parse_at next o.option_type (o.len ∷ (o.body ++ rest)) options offset
      ≡ next rest (options ++ o ∷ []) (offset + o.len)
unfolding parse_at
parse_at_one next o rest options offset s = rw (
  le→ltb_false o.len 2 (omega (arith, s.counted)),
  le→ltb_false (length (o.body ++ rest) + 2) o.len
      (omega (arith, s.counted, length-append o.body rest)),
  le→leb 2 o.len (omega (arith, s.counted)),
  le→leb o.len (length (o.body ++ rest) + 2) (omega (arith, s.counted, length-append o.body rest)),
  drop-append_length o.len (o.option_type ∷ o.len ∷ o.body) rest (omega (arith, s.counted)),
  take-append_length (o.len - 2) o.body rest (omega (arith, s.counted)),
)

parse_loop-wire :
    (os : List Opt) (pad fuel : ℕ) (options : List Opt) (offset : ℕ)
    → AllSound os
    → option_size os + pad < fuel
    → parse_loop fuel (wire os ++ replicate pad 0) options offset
      ≡ ok (options ++ os, offset + (option_size os + pad))
unfolding parse_loop option_size
parse_loop-wire os pad zero options offset s h = elim h [ ]
parse_loop-wire [] pad (suc fuel) options offset s h =
    parse_loop-zeros pad (suc fuel) options offset (omega arith)
    ∙ ap₂ (λ os n. ok (os, n)) {v = offset + (0 + pad)} (sym (append-nil options)) (omega arith)
parse_loop-wire (o ∷ os) pad (suc fuel) options offset (s, ss) h =
    elim (Bool-cases (o.option_type == OptionType.padding)) [
      | inl e ↦ absurd (s.no_padding ((==_iff _ _).0 e))
      | inr e ↦
          rw (e, parse_loop, append_assoc)
            (parse_at_one (parse_loop fuel) o (wire os ++ replicate pad 0) options offset s
              ∙ parse_loop-wire os pad fuel (options ++ o ∷ []) (offset + o.len) ss
                  (omega (arith, s.counted))
              ∙ ap₂ (λ os n. ok (os, n)) {u = offset + o.len + (option_size os + pad)}
                  (append_assoc options (o ∷ []) os) (omega arith))
    ]

-- What comes back as the header: the data offset and the checksum are the encoder's, and of an
-- extended sequence number only the high half; the low half is read from the bytes behind it.
abbrev pub received : Header → List Opt → List ℕ → Header
received hdr options payload = record zero_header {
  source_port = hdr.source_port;
  dest_port = hdr.dest_port;
  data_offset = words_of options;
  cc_val = hdr.cc_val;
  checksum = compute_checksum (unsealed hdr options payload);
  packet_type = hdr.packet_type;
  extended = hdr.extended;
  sequence_number =
      if hdr.extended == 1
      then hdr.sequence_number / 2 ^ 32 * 2 ^ 32 + u32_at (body options payload) 0
      else 0;
}

decode_header-bytes :
    (hdr : Header) (words c : ℕ) (rest : List ℕ)
    → IsHeader hdr
    → words < 16
    → c < 2 ^ 16
    → decode_header (header_bytes hdr words c ++ rest) ≡ record zero_header {
      source_port = hdr.source_port;
      dest_port = hdr.dest_port;
      data_offset = words;
      cc_val = hdr.cc_val;
      checksum = c;
      packet_type = hdr.packet_type;
      extended = hdr.extended;
      sequence_number =
          if hdr.extended == 1 then hdr.sequence_number / 2 ^ 32 * 2 ^ 32 + u32_at rest 0 else 0;
    }
unfolding decode_header header_bytes
decode_header-bytes hdr words c rest v w h = elim (Bool-cases (hdr.extended == 1)) [
  | inl e ↦ rw e (ground arith)
  | inr e ↦ rw e (ground arith)
]

words_bound : (options : List Opt) → option_size options ≤ 48 → words_of options < 16
words_bound options h = ground arith

words_exact :
    (options : List Opt)
    → option_size options ≤ 48
    → words_of options * 4
      ≡ header_size + (option_size options + padding_size (option_size options))
words_exact options h = ground arith

-- The option area of a packet is parsed back into the options, padding included.
options_area :
    (options : List Opt) (payload head : List ℕ) (end : ℕ)
    → length head ≡ header_size
    → AllSound options
    → end ≡ header_size + (option_size options + padding_size (option_size options))
    → parse_options (slice (head ++ body options payload) header_size end)
      ≡ ok (options, option_size options + padding_size (option_size options))
unfolding parse_options
options_area options payload head end len sound e =
    let size = option_size options in
    let zeros : List ℕ = replicate (padding_size size) 0 in
    let counted = length-wire options sound in
    let both : length (wire options ++ zeros) ≡ size + padding_size size = omega (
      arith,
      counted,
      length-append (wire options) zeros,
      length-replicate (padding_size size) zero,
    ) in
    rw
      (
        drop-append_length header_size head (body options payload) (sym len),
        ← append_assoc (wire options) zeros payload,
        take-append_length (end - header_size) (wire options ++ zeros) payload (omega arith),
        both,
      )
      (parse_loop-wire options (padding_size size) (size + padding_size size + 1) [] 0 sound
          (omega arith)
        ∙ ap (λ n. ok (options, n)) {x = 0 + (size + padding_size size)} (omega arith))

after_options :
    (options : List Opt) (payload head : List ℕ)
    → length head ≡ header_size
    → AllSound options
    → drop
        (header_size + (option_size options + padding_size (option_size options)))
        (head ++ body options payload)
      ≡ payload
after_options options payload head len sound =
    let pad = padding_size (option_size options) in
    let zeros : List ℕ = replicate pad 0 in
    let counted = length-wire options sound in
    let both = length-append (wire options) zeros in
    let all = length-append head (wire options ++ zeros) in
    rw
      (
        ← append_assoc (wire options) zeros payload,
        ← append_assoc head (wire options ++ zeros) payload,
      )
      (drop-append_length _ (head ++ (wire options ++ zeros)) payload
        (omega (arith, length-replicate pad zero)))

-- DecodeDCCPPacket past its guards.
pub decode_past_guards :
    (bytes : List ℕ) (options : List Opt) (n : ℕ)
    → ((decode_header bytes).extended ≡ 1 → 16 ≤ length bytes)
    → header_size ≤ (decode_header bytes).data_offset * 4
    → header_size + n ≤ length bytes
    → parse_options
        (slice bytes header_size (min ((decode_header bytes).data_offset * 4) (length bytes)))
      ≡ ok (options, n)
    → decode bytes ≡ ok (decode_header bytes, options, drop (header_size + n) bytes)
unfolding decode
decode_past_guards bytes options n room offset fits parsed = ground arith

-- If the options are sound and take at most 48 bytes, and an extended sequence number has four
-- bytes of options or payload behind it, then EncodeDCCPPacket succeeds and DecodeDCCPPacket
-- reads its bytes back as `received` says: the same options and payload, the same ports, type,
-- CCVal and extended bit.
pub decode-encode :
    (hdr : Header) (options : List Opt) (payload : List ℕ)
    → IsHeader hdr
    → AllSound options
    → option_size options ≤ 48
    → (hdr.extended ≡ 1 → 4 ≤ length (body options payload))
    → (bytes : List ℕ) × (encode hdr options payload ≡ ok bytes)
      × (decode bytes ≡ ok (received hdr options payload, options, payload))
decode-encode hdr options payload v sound small room =
    (bytes, encode_layout hdr options payload sound room, decoded)
  where
    size : ℕ
    size = option_size options + padding_size (option_size options)

    head : List ℕ
    head = header_bytes hdr (words_of options) (compute_checksum (unsealed hdr options payload))

    bytes : List ℕ
    bytes = head ++ body options payload

    back : decode_header bytes ≡ received hdr options payload
    back =
        decode_header-bytes hdr (words_of options) _ (body options payload) v
          (words_bound options small) (compute_checksum-lt (unsealed hdr options payload))

    len_head : length head ≡ header_size
    len_head = length-header_bytes hdr (words_of options) _

    len : length bytes ≡ header_size + (size + length payload)
    len = omega (
      arith,
      len_head,
      length-append head (body options payload),
      length-body options payload sound,
    )

    end : min (words_of options * 4) (length bytes) ≡ header_size + size
    end = omega (arith, len, words_exact options small)

    rest : drop (header_size + size) bytes ≡ payload
    rest = after_options options payload head len_head sound

    decoded : decode bytes ≡ ok (received hdr options payload, options, payload)
    decoded =
        rw (back, rest) at
          (decode_past_guards bytes options size
            (rw back (λ e. omega (arith, len, room e, length-body options payload sound)))
            (rw back (omega (arith, words_exact options small))) (omega (arith, len))
            (rw (back, end) (options_area options payload head _ len_head sound refl)))
