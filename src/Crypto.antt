-- ===== src/Crypto.antt =====
-- app/common/crypto/crypto.go. An AEAD of crypto/cipher is a parameter, as is what makes one of a
-- key; random bytes are arguments.
use oiwest_core.Common.{
  ℕ, ◌+◌, ◌%◌, ◌^◌, ◌==◌, not, List, ◌++◌, ltb, length, take, drop, map, be64, Option, none, some,
  Result, ok, err, ◌>>=◌, ◌>>◌, check, in_range,
}
use oiwest_core.Common.Bits.{xor}

-- CipherType.
pub data CipherType : Type 0 where
  aes_128_gcm aes_256_gcm chacha20_poly1305 xchacha20_poly1305 no_cipher : CipherType

pub data Error : Type 0 where
  invalid_key unsupported_cipher decrypt_fail bad_packet invalid_obfuscation : Error

-- An AEAD: the size of its nonce, Seal and Open, which panic on a nonce of another size.
pub record Aead : Type 0 where
  pub nonce_size : ℕ
  pub sealed : List ℕ → List ℕ → List ℕ
  pub opened : List ℕ → List ℕ → Option (List ℕ)

unfoldable pub seal : Aead → List ℕ → List ℕ → Result Error (List ℕ)
seal a nonce plain = in_range (length nonce == a.nonce_size) >> ok (a.sealed nonce plain)

unfoldable pub open_ : Aead → List ℕ → List ℕ → Result Error (List ℕ)
open_ a nonce packet =
    in_range (length nonce == a.nonce_size)
    >> elim (a.opened nonce packet) [ none ↦ err bad_packet | some plain ↦ ok plain ]

-- The length of key that a type wants.
unfoldable pub key_length : CipherType → Option ℕ
key_length aes_128_gcm = some 16
key_length aes_256_gcm = some 32
key_length chacha20_poly1305 = some 32
key_length xchacha20_poly1305 = some 32
key_length no_cipher = none

-- NewAEADCipher; `make` is aes.NewCipher with cipher.NewGCM, or the constructor of chacha20poly1305.
unfoldable pub new_aead_cipher :
    (CipherType → List ℕ → Option Aead) → CipherType → List ℕ → Result Error Aead
unfolding key_length
new_aead_cipher make typ key = elim (key_length typ) [
  | none ↦ err unsupported_cipher
  | some n ↦
      check (length key == n) invalid_key
      >> elim (make typ key) [ none ↦ err invalid_key | some a ↦ ok a ]
]

-- Encrypt, with the nonce that it draws, and Decrypt.
unfoldable pub encrypt : Aead → List ℕ → List ℕ → Result Error (List ℕ)
unfolding seal
encrypt a nonce plain = seal a nonce plain >>= λ sealed. ok (nonce ++ sealed)

unfoldable pub decrypt : Aead → List ℕ → Result Error (List ℕ)
unfolding open_
decrypt a packet =
    check (not (ltb (length packet) a.nonce_size)) decrypt_fail
    >> open_ a (take a.nonce_size packet) (drop a.nonce_size packet)

-- SessionCounter: Next advances the counter and answers its eight bytes.
unfoldable pub next : ℕ → ℕ × List ℕ
next count = let count' = (count + 1) % 2 ^ 64 in (count', be64 count')

-- XORKeyStream into a new slice.
unfoldable pub xor_key_stream : List ℕ → List ℕ
xor_key_stream src = map (λ b. xor 8 b 255) src
