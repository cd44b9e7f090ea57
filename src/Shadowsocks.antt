-- ===== src/Shadowsocks.antt =====
-- The ciphers and the stream of app/proxy/shadowsocks/ss.go. The AEAD of a method and a key, and
-- the hash, are the parameters of `Lib`; what `rand.Read` makes is an argument.
pub mod Stream
pub mod Key
mod Tests
use oiwest_core.Common.{
  ℕ, zero, suc, ◌+◌, ◌-◌, ◌*◌, ◌%◌, ◌^◌, ◌==◌, Bool, true, false, List, [], ◌∷◌, ◌++◌, ltb,
  if◌then◌else◌, length, take, drop, replicate, copy_at, slice, be16, u16_at, Option, none, some,
  Result, ok, err, panic, ◌>>=◌, ◌>>◌, check, min,
}

-- CipherMethod.
pub data Method : Type 0 where
  aes_128_gcm aes_256_gcm chacha20_poly1305 xchacha20_poly1305 no_cipher : Method

-- An AEAD of crypto/cipher: the size of its nonce, Seal and Open.
pub record Aead : Type 0 where
  pub nonce_size : ℕ
  pub seal : List ℕ → List ℕ → List ℕ
  pub open_ : List ℕ → List ℕ → Option (List ℕ)

-- `aead` is none where a key does not fit its method.
pub record Lib : Type 0 where
  pub md5 : List ℕ → List ℕ
  pub aead : Method → List ℕ → Option Aead

pub data Error : Type 0 where
  invalid_method short_packet bad_key bad_packet packet_too_large eof unexpected_eof : Error

-- AEADCipher.
pub record Cipher : Type 0 where
  pub method : Method
  pub key_size : ℕ
  pub salt_size : ℕ

abbrev pub sized : Method → ℕ → Cipher
sized m n = record { method = m; key_size = n; salt_size = n }

-- NewCipher on the names that it knows.
unfoldable pub new_cipher : Method → Cipher
new_cipher aes_128_gcm = sized aes_128_gcm 16
new_cipher aes_256_gcm = sized aes_256_gcm 32
new_cipher chacha20_poly1305 = sized chacha20_poly1305 32
new_cipher xchacha20_poly1305 = sized xchacha20_poly1305 32
new_cipher no_cipher = sized no_cipher 0

-- io.ReadFull.
pub read_full : ℕ → List ℕ → Result Error (List ℕ × List ℕ)
read_full zero stream = ok ([], stream)
read_full (suc n) [] = err eof
read_full (suc n) (x ∷ xs) =
    if ltb (length xs) n
    then err unexpected_eof
    else ok (take (suc n) (x ∷ xs), drop (suc n) (x ∷ xs))

-- ssDecryptReader: the plaintext that is left, from an offset on.
pub record Reader : Type 0 where
  pub buf : List ℕ
  pub offset : ℕ
  pub length_ : ℕ

module _ (lib : Lib) where
  open lib use {md5, aead}

  -- newAEAD; the method without a cipher has none.
  pub new_aead : Method → List ℕ → Result Error Aead
  new_aead no_cipher key = err invalid_method
  new_aead m key = elim (aead m key) [ none ↦ err bad_key | some a ↦ ok a ]

  -- The loop of KDFPassword, on fuel.
  pub kdf_loop : ℕ → List ℕ → List ℕ → ℕ → List ℕ → List ℕ
  kdf_loop zero password hash len key = key
  kdf_loop (suc fuel) password hash len key = elim (ltb (length key) len) [
    | false ↦ key
    | true ↦
        let hash' = md5 (hash ++ password) in
        kdf_loop fuel password hash' len (copy_at key (length key - 16) hash')
  ]

  -- KDFPassword.
  pub kdf_password : ℕ → List ℕ → ℕ → List ℕ
  kdf_password fuel password len =
      kdf_loop fuel password (md5 password) len (copy_at (replicate len 0) 0 (md5 password))

  -- Encrypt, with the nonce that it draws.
  pub encrypt : Method → List ℕ → List ℕ → List ℕ → Result Error (List ℕ)
  encrypt no_cipher nonce plain key = ok plain
  encrypt m nonce plain key = new_aead m key >>= λ a. ok (nonce ++ a.seal nonce plain)

  -- What Decrypt makes of a packet with an AEAD.
  pub opened : Aead → List ℕ → Result Error (List ℕ)
  opened a packet =
      if ltb (length packet) a.nonce_size
      then err short_packet
      else elim (a.open_ (take a.nonce_size packet) (drop a.nonce_size packet)) [
        | none ↦ err bad_packet
        | some plain ↦ ok plain
      ]

  -- Decrypt.
  pub decrypt : Method → List ℕ → List ℕ → Result Error (List ℕ)
  decrypt no_cipher packet key = ok packet
  decrypt m packet key = new_aead m key >>= λ a. opened a packet

  -- ssEncryptWriter.Write: what it writes.
  pub write : Method → List ℕ → List ℕ → List ℕ → Result Error (List ℕ)
  write m key nonce plain = do
    packet ← encrypt m nonce plain key
    ok (be16 (length packet) ++ packet)

  -- What Read does with the plaintext of a new frame.
  pub keep_rest : ℕ → List ℕ → Reader → Reader
  keep_rest size plain r =
      let n = min size (length plain) in
      if ltb n (length plain)
      then record { buf = plain; offset = n; length_ = length plain - n }
      else r

  -- The plaintext of the next frame, and the rest of the stream.
  pub next_frame : Method → List ℕ → List ℕ → Result Error (List ℕ × List ℕ)
  next_frame m key stream = do
    (header, stream') ← read_full 2 stream
    check (ltb (u16_at header 0) (64 * 1024 + 1)) packet_too_large
    (packet, stream'') ← read_full (u16_at header 0) stream'
    plain ← decrypt m packet key
    ok (plain, stream'')

  -- ssDecryptReader.Read into a slice of `size` bytes: the bytes, the reader and the stream.
  pub read : Method → List ℕ → ℕ → Reader → List ℕ → Result Error (List ℕ × Reader × List ℕ)
  read m key size r stream =
      if ltb 0 r.length_
      then (let n = min size r.length_ in
          ok (
            take n (slice r.buf r.offset (r.offset + r.length_)),
            record r {
              offset = if r.length_ - n == 0 then 0 else r.offset + n;
              length_ = r.length_ - n;
            },
            stream,
          ))
      else (next_frame m key stream >>= λ p. ok (take size p.0, keep_rest size p.0 r, p.1))

  -- ShadowsocksUDP: Pack and Unpack with the key of a password.
  abbrev pub pack : Method → ℕ → List ℕ → List ℕ → List ℕ → Result Error (List ℕ)
  pack m fuel password nonce plain =
      encrypt m nonce plain (kdf_password fuel password (new_cipher m).key_size)

  abbrev pub unpack : Method → ℕ → List ℕ → List ℕ → Result Error (List ℕ)
  unpack m fuel password packet =
      decrypt m packet (kdf_password fuel password (new_cipher m).key_size)
