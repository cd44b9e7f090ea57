-- ===== src/Proxy/Vmess.antt =====
-- app/proxy/vmess/vmess.go: the header of a request, its parser, and the reader of bodies. The keyed
-- hash of an authentication id and the AEAD are parameters; the time and what `rand.Reader` gives
-- are arguments.
pub mod Header
use oiwest_core.Common.{
  ℕ, zero, suc, ◌+◌, ◌*◌, ◌%◌, ◌^◌, ◌≤◌, ◌<◌, ◌≡◌, refl, sym, ap, ◌∙◌, true, false, List, [], ◌∷◌,
  ◌++◌, ltb, leb, ◌==◌, ◌&&◌, if◌then◌else◌, length, length-append, append_assoc, take, drop, slice,
  copy_at, byte_at, u16_at, be16, be32, be64, Option, none, some, Result, ok, err, panic, arith,
  check, ◌>>=◌, ◌>>◌, le→ltb_false, Bool-cases, inl, inr,
}
use oiwest_core.Common.Bits.{xor}
use oiwest_core.Common.Copying.{take-append_length, drop-append_length}
use oiwest_core.Common.Reading.{byte_at-skip}
use oiwest_core.Router.{text_eq}
use oiwest_core.Proxy.{
  Error, eof, unexpected_eof, invalid_request, invalid_user, bad_packet, Target, read_full,
}
use oiwest_core.Proxy.Address.{Codes, address_bytes, read_full_enough}

abbrev pub codes : Codes
codes = record { four = 1; name = 2; six = 3 }

-- fnv1a32, from a hash on.
unfoldable pub fnv1a32 : ℕ → List ℕ → ℕ
unfolding xor
fnv1a32 hash [] = hash
fnv1a32 hash (b ∷ bs) = fnv1a32 (xor 32 hash b * 16777619 % 2 ^ 32) bs

-- generateAuthID and generateOutboundAuthID; the sum of the hash is cut to 16 bytes.
unfoldable pub generate_auth_id : (List ℕ → List ℕ) → ℕ → List ℕ → List ℕ
generate_auth_id mac time key = take 16 (mac (be64 time ++ take 8 key))

-- The part of the header that the server looks at; the ciphers are numbered up to 4.
unfoldable pub header_start : List ℕ → List ℕ → ℕ → List ℕ
header_start auth_id body_key security = 1 ∷ (auth_id ++ (body_key ++ 17 * security ∷ []))

-- What follows it before the hash.
unfoldable pub header_end : ℕ → Target → List ℕ
unfolding address_bytes
header_end cmd target =
    0 ∷ ((if cmd == 2 then 0 ∷ [] else []) ++ cmd ∷ 0 ∷ address_bytes codes target)

-- buildVMessRequestHeader.
unfoldable pub build_header : List ℕ → List ℕ → ℕ → Target → ℕ → List ℕ
unfolding header_start header_end fnv1a32
build_header auth_id body_key security target cmd =
    let header = header_start auth_id body_key security ++ header_end cmd target in
    header ++ be32 (fnv1a32 2166136261 header)

-- The loop over the accounts, each by its key.
unfoldable pub find_account : (List ℕ → List ℕ) → ℕ → List (List ℕ) → List ℕ → Result Error (List ℕ)
unfolding generate_auth_id
find_account mac time [] auth_id = err invalid_user
find_account mac time (key ∷ keys) auth_id =
    let rest = find_account mac time keys auth_id in
    if text_eq auth_id (generate_auth_id mac time key) then ok key else rest

-- parseHeader: the key of the account, the body's key and options, and the rest of the stream.
unfoldable pub parse_header :
    (List ℕ → List ℕ) → ℕ → List (List ℕ) → List ℕ → Result Error (List ℕ × List ℕ × ℕ × List ℕ)
unfolding find_account
parse_header mac time keys stream = do
  (header, rest) ← read_full 49 stream
  check (byte_at header 0 == 1) invalid_request
  key ← find_account mac time keys (slice header 1 17)
  ok (key, slice header 17 33, byte_at header 33, rest)

-- vmessAEADReader.
pub record BodyReader : Type 0 where
  pub nonce : List ℕ
  pub buf : List ℕ
  pub count : ℕ

-- The nonce with the number of the packet in it; the one of the reader has 16 bytes or 32.
unfoldable pub packet_nonce : BodyReader → List ℕ
packet_nonce r = copy_at (take 8 r.nonce ++ be16 r.count ++ 0 ∷ 0 ∷ []) 10 (drop 10 r.nonce)

abbrev pub counted : BodyReader → BodyReader
counted r = record r { count = (r.count + 1) % 2 ^ 16 }

-- What a read answers, with the reader and the stream that it leaves.
abbrev pub Answer : Type 0
Answer = Result Error (List ℕ) × BodyReader × List ℕ

-- Read of bytes.Buffer.
unfoldable pub buffer_read : ℕ → BodyReader → List ℕ → Answer
buffer_read size r stream =
    if length r.buf == 0 && ltb 0 size
    then (err eof, r, stream)
    else (ok (take size r.buf), record r { buf = drop size r.buf }, stream)

-- io.ReadFull with the stream that it leaves, which is empty where too little came.
unfoldable pub read_chunk : ℕ → List ℕ → Result Error (List ℕ) × List ℕ
read_chunk n stream =
    if leb n (length stream)
    then (ok (take n stream), drop n stream)
    else (err (if length stream == 0 then eof else unexpected_eof), [])

module _ (open_ : List ℕ → List ℕ → Option (List ℕ)) where
  -- From the decrypted length on.
  unfoldable pub read_payload : ℕ → BodyReader → ℕ → List ℕ → Answer
  unfolding read_chunk packet_nonce buffer_read
  read_payload size r len stream = elim ((read_chunk (len + 16) stream).0) [
    | err e ↦ (err e, r, (read_chunk (len + 16) stream).1)
    | panic ↦ (panic, r, (read_chunk (len + 16) stream).1)
    | ok payload ↦ elim (open_ (packet_nonce (counted r)) payload) [
      | none ↦ (err bad_packet, counted r, (read_chunk (len + 16) stream).1)
      | some plain ↦
          buffer_read size (record (counted r) { buf = r.buf ++ plain })
            ((read_chunk (len + 16) stream).1)
    ]
  ]

  -- Read. The length is decrypted in the place of the header.
  unfoldable pub read_body : ℕ → BodyReader → List ℕ → Answer
  unfolding read_payload
  read_body size r stream = elim (ltb 0 (length r.buf)) [
    | true ↦ buffer_read size r stream
    | false ↦ elim ((read_chunk 18 stream).0) [
      | err e ↦ (err e, r, (read_chunk 18 stream).1)
      | panic ↦ (panic, r, (read_chunk 18 stream).1)
      | ok header ↦ elim (open_ (packet_nonce (counted r)) (take 2 header)) [
        | none ↦ (err bad_packet, counted r, (read_chunk 18 stream).1)
        | some len ↦
            read_payload size (counted r) (u16_at (len ++ drop (length len) header) 0)
              ((read_chunk 18 stream).1)
      ]
    ]
  ]

read_chunk_enough :
    (n : ℕ) (stream : List ℕ)
    → leb n (length stream) ≡ true
    → (read_chunk n stream).0 ≡ ok (take n stream)
unfolding read_chunk
read_chunk_enough n stream h = rw h refl

read_chunk_few :
    (n : ℕ) (stream : List ℕ)
    → leb n (length stream) ≡ false
    → (read_chunk n stream).0 ≡ err (if length stream == 0 then eof else unexpected_eof)
unfolding read_chunk
read_chunk_few n stream h = rw h refl

module _ (open_ : List ℕ → List ℕ → Option (List ℕ))
    (tagged : (nonce packet : List ℕ) → length packet < 16 → open_ nonce packet ≡ none) where
  length-take_two : (xs : List ℕ) → length (take 2 xs) < 16
  length-take_two [] = omega arith
  length-take_two (x ∷ []) = omega arith
  length-take_two (x ∷ y ∷ xs) = omega arith

  -- When an AEAD with a tag of 16 bytes opens nothing shorter than its tag, a reader whose buffer is
  -- empty answers every read of any stream with an error, and its buffer stays empty.
  pub read_body_lem :
      (size : ℕ) (r : BodyReader) (stream : List ℕ)
      → r.buf ≡ []
      → (e : Error) × (r' : BodyReader) × (rest : List ℕ) × (read_body open_ size r stream
          ≡ (err e, r', rest))
        × (r'.buf ≡ [])
  unfolding read_body
  read_body_lem size r stream h =
      let none_left : ltb 0 (length r.buf) ≡ false =
        le→ltb_false 0 (length r.buf) (omega (arith, ap length h)) in
      elim (Bool-cases (leb 18 (length stream))) [
        | inl enough ↦
            let closed =
              tagged (packet_nonce (counted r)) (take 2 (take 18 stream))
                (length-take_two (take 18 stream)) in
            (
              bad_packet,
              counted r,
              (read_chunk 18 stream).1,
              rw (none_left, read_chunk_enough 18 stream enough, closed, read_body) refl,
              h,
            )
        | inr few ↦ (
          (if length stream == 0 then eof else unexpected_eof),
          r,
          (read_chunk 18 stream).1,
          rw (none_left, read_chunk_few 18 stream few, read_body) refl,
          h,
        )
      ]
