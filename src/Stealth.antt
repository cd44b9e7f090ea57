-- ===== src/Stealth.antt =====
-- app/features/stealth/obfuscator.go. The ciphers are those of app/common/crypto; what the random
-- generator gives is an argument.
pub mod Masks
pub mod Frames
pub mod Reads
mod Tests
use oiwest_core.Common.{
  ℕ, zero, suc, ◌+◌, ◌-◌, ◌*◌, ◌/◌, ◌%◌, ◌^◌, ◌==◌, Bool, true, false, not, ◌&&◌, ◌||◌, List, [],
  ◌∷◌, ◌++◌, ltb, leb, if◌then◌else◌, length, take, drop, slice, copy_at, replicate, byte_at,
  u16_at, be16, Option, none, some, Result, ok, err, panic, ◌>>=◌, ◌>>◌, check, in_range, min,
}
use oiwest_core.Common.Bits.{xor}
use oiwest_core.Crypto.{
  CipherType, aes_256_gcm, chacha20_poly1305, Error, invalid_obfuscation, Aead, seal, open_,
  new_aead_cipher, encrypt, decrypt, next,
}

-- RandomObfuscator: each byte with the byte of the key at its index modulo the key's length.
unfoldable pub xor_loop : List ℕ → ℕ → List ℕ → List ℕ
unfolding xor
xor_loop key i [] = []
xor_loop key i (d ∷ ds) = xor 8 d (byte_at key (i % length key)) ∷ xor_loop key (i + 1) ds

-- The remainder by the length of an empty key panics, once there is a byte.
unfoldable pub random_obfuscate : List ℕ → List ℕ → Result Error (List ℕ)
unfolding xor_loop
random_obfuscate key bytes = do
  in_range (not (length key == 0) || length bytes == 0)
  ok (xor_loop key 0 bytes)

-- Reset.
unfoldable pub random_reset : List ℕ → List ℕ
random_reset key = replicate (length key) 0

-- RandomPaddingObfuscator; `draw` is the number that rand.Int answers, and `noise` gives so many
-- random bytes. rand.Int panics where there is no number to draw.
unfoldable pub pad_obfuscate : ℕ → ℕ → ℕ → (ℕ → List ℕ) → List ℕ → Result Error (List ℕ)
pad_obfuscate padding_min padding_max draw noise bytes = do
  in_range (ltb padding_min (padding_max + 1))
  let total = draw + padding_min
  ok (be16 total ++ (noise total ++ bytes))

unfoldable pub pad_deobfuscate : List ℕ → Result Error (List ℕ)
pad_deobfuscate bytes = do
  check (not (ltb (length bytes) 2)) invalid_obfuscation
  check (not (ltb (length bytes) (2 + u16_at bytes 0))) invalid_obfuscation
  ok (drop (2 + u16_at bytes 0) bytes)

-- XTLSObfuscator: its cipher and its counter. A splitting one cuts the data to 900 bytes.
pub record Xtls : Type 0 where
  pub aead : Aead
  pub count : ℕ
  pub command : ℕ
  pub splitting : Bool

unfoldable pub xtls_obfuscate : Xtls → ℕ → (ℕ → List ℕ) → List ℕ → Result Error (Xtls × List ℕ)
unfolding next
xtls_obfuscate x pad noise bytes = do
  let (count', nonce) = next x.count
  encrypted ← seal x.aead nonce (if x.splitting then take 900 bytes else bytes)
  ok (
    record x { count = count' },
    x.command ∷ (be16 (length encrypted) ++ (pad ∷ 0 ∷ (encrypted ++ noise pad))),
  )

unfoldable pub xtls_deobfuscate : Xtls → List ℕ → Result Error (Xtls × List ℕ)
unfolding next
xtls_deobfuscate x bytes = do
  check (not (ltb (length bytes) 5)) invalid_obfuscation
  check (not (ltb (length bytes) (5 + u16_at bytes 1))) invalid_obfuscation
  let (count', nonce) = next x.count
  plain ← open_ x.aead nonce (slice bytes 5 (5 + u16_at bytes 1))
  ok (record x { count = count' }, plain)

-- VisionObfuscator: its cipher and its counter.
unfoldable pub vision_obfuscate : Aead → ℕ → List ℕ → Result Error (ℕ × List ℕ)
unfolding next
vision_obfuscate a count bytes = do
  let (count', nonce) = next count
  encrypted ← seal a nonce bytes
  ok (count', be16 (length encrypted) ++ encrypted)

unfoldable pub vision_deobfuscate : Aead → List ℕ → Result Error (List ℕ)
vision_deobfuscate a bytes = do
  check (not (ltb (length bytes) 2)) invalid_obfuscation
  let len = u16_at bytes 0
  check (not (ltb (length bytes) (2 + len))) invalid_obfuscation
  check (not (ltb len a.nonce_size)) invalid_obfuscation
  open_ a (slice bytes 2 (2 + a.nonce_size)) (slice bytes (2 + a.nonce_size) (2 + len))

-- RealityObfuscator: its cipher, its short id and the nonce that Encrypt draws.
unfoldable pub reality_obfuscate : Aead → List ℕ → List ℕ → List ℕ → Result Error (List ℕ)
reality_obfuscate a short_id nonce bytes = do
  encrypted ← encrypt a nonce bytes
  ok (length short_id % 256 ∷ (short_id ++ (be16 (length encrypted) ++ encrypted)))

unfoldable pub reality_deobfuscate : Aead → List ℕ → Result Error (List ℕ)
reality_deobfuscate a bytes = do
  check (not (ltb (length bytes) 3)) invalid_obfuscation
  let start = 1 + byte_at bytes 0
  check (not (ltb (length bytes) (start + 2))) invalid_obfuscation
  let payload = start + 2
  let len = u16_at bytes start
  check (not (ltb (length bytes) (payload + len))) invalid_obfuscation
  decrypt a (slice bytes payload (payload + len))

-- StreamObfuscator: the buffer, with the range of it that is still to be read.
pub record Stream : Type 0 where
  pub read_buf : List ℕ
  pub read_pos : ℕ
  pub read_len : ℕ

unfoldable pub new_stream : Stream
new_stream = record { read_buf = replicate (64 * 1024) 0; read_pos = 0; read_len = 0 }

-- What Read does with a plaintext.
unfoldable pub keep_rest : ℕ → List ℕ → Stream → Stream
keep_rest size plain s =
    let copied = min size (length plain) in
    if ltb copied (length plain)
    then record {
      read_buf = copy_at s.read_buf 0 (drop copied plain);
      read_pos = copied;
      read_len = length plain - copied;
    }
    else s

-- Read into `size` bytes; `raw` is what the reader puts into the buffer.
unfoldable pub stream_read :
    (List ℕ → Result Error (List ℕ)) → ℕ → List ℕ → Stream → Result Error (List ℕ × Stream)
unfolding keep_rest
stream_read deobfuscate size raw s = elim (ltb 0 s.read_len) [
  | true ↦ do
    in_range (leb (s.read_pos + s.read_len) (length s.read_buf))
    let n = min size s.read_len
    ok (
      take n (slice s.read_buf s.read_pos (s.read_pos + s.read_len)),
      record s {
        read_pos = if s.read_len - n == 0 then 0 else s.read_pos + n;
        read_len = s.read_len - n;
      },
    )
  | false ↦ do
    plain ← deobfuscate raw
    ok (take size plain, keep_rest size plain (record s { read_buf = copy_at s.read_buf 0 raw }))
]
