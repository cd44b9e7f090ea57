-- ===== src/Shadowsocks/Key.antt =====
-- The key of a password, and a packet there and back.
use oiwest_core.Common.{
  ℕ, zero, suc, ◌+◌, ◌≤◌, ◌≡◌, refl, sym, ap, ◌∙◌, List, ◌++◌, length, replicate, drop, copy_at,
  length-replicate, length-append, le→ltb_false, Option, none, some, ok, err, ◌>>=◌, arith,
}
use oiwest_core.Common.Copying.{
  copy_at-zero, length-copy_at, replicate-add, drop-append_length, take-append_length,
}
use oiwest_core.Shadowsocks.{
  Lib, Aead, Method, aes_128_gcm, aes_256_gcm, chacha20_poly1305, xchacha20_poly1305, no_cipher,
  bad_key, kdf_loop, kdf_password, new_aead, encrypt, decrypt, opened,
}

module _ (lib : Lib) where
  open lib use {md5, aead}

  kdf_loop_ends :
      (fuel : ℕ) (password hash : List ℕ) (len : ℕ) (key : List ℕ)
      → len ≤ length key
      → kdf_loop lib fuel password hash len key ≡ key
  unfolding kdf_loop
  kdf_loop_ends zero password hash len key h = refl
  kdf_loop_ends (suc fuel) password hash len key h =
      rw (le→ltb_false (length key) len h, kdf_loop) refl

  -- KDFPassword never enters its loop, with whatever fuel: a key of more than sixteen bytes is the
  -- hash of the password and zeros, for a hash of sixteen bytes.
  pub kdf_password_lem :
      (fuel : ℕ) (password : List ℕ) (more : ℕ)
      → length (md5 password) ≡ 16
      → kdf_password lib fuel password (16 + more) ≡ md5 password ++ replicate more 0
  unfolding kdf_password
  kdf_password_lem fuel password more h =
      let zeros : List ℕ = replicate (16 + more) 0 in
      let size = length-copy_at zeros 0 (md5 password) ∙ length-replicate (16 + more) 0 in
      let split : zeros ≡ replicate 16 0 ++ replicate more 0 = replicate-add 16 more 0 in
      kdf_loop_ends fuel password (md5 password) (16 + more) (copy_at zeros 0 (md5 password))
        (omega arith)
      ∙ copy_at-zero zeros (md5 password) (omega (arith, length-replicate (16 + more) zero))
      ∙ ap (λ r. md5 password ++ r)
          (ap (drop (length (md5 password))) split
            ∙ drop-append_length (length (md5 password)) (replicate 16 0) (replicate more 0) h)

  -- A packet with a nonce of the right size is opened to what was sealed.
  opened-seal :
      (a : Aead) (nonce plain : List ℕ)
      → length nonce ≡ a.nonce_size
      → a.open_ nonce (a.seal nonce plain) ≡ some plain
      → opened lib a (nonce ++ a.seal nonce plain) ≡ ok plain
  unfolding opened
  opened-seal a nonce plain n e =
      let size = length-append nonce (a.seal nonce plain) in
      rw
        (
          le→ltb_false (length (nonce ++ a.seal nonce plain)) a.nonce_size (omega arith),
          take-append_length a.nonce_size nonce (a.seal nonce plain) (sym n),
          drop-append_length a.nonce_size nonce (a.seal nonce plain) (sym n),
          e,
        )
        refl

  -- A nonce that fits a cipher, which opens what it seals with it.
  abbrev pub Opens : Method → List ℕ → List ℕ → List ℕ → Type 0
  Opens m key nonce plain =
      (a : Aead)
      → aead m key ≡ some a
      → (length nonce ≡ a.nonce_size) × (a.open_ nonce (a.seal nonce plain) ≡ some plain)

  with_aead :
      (m : Method) (nonce plain key packet : List ℕ) (found : Option Aead)
      → aead m key ≡ found
      → Opens m key nonce plain
      → (elim found [ none ↦ err bad_key | some a ↦ ok a ] >>= λ (a : Aead).
          ok (nonce ++ a.seal nonce plain))
        ≡ ok packet
      → (elim found [ none ↦ err bad_key | some a ↦ ok a ] >>= λ a. opened lib a packet) ≡ ok plain
  with_aead m nonce plain key packet none f h e = cc e
  with_aead m nonce plain key packet (some a) f h e =
      let (n, o) = h a f in
      let same : nonce ++ a.seal nonce plain ≡ packet = cc e in
      rw (← same) (opened-seal a nonce plain n o)

  -- Decrypt undoes Encrypt, for every method, if the nonce fits the cipher and the cipher opens what
  -- it seals.
  pub decrypt-encrypt :
      (m : Method) (nonce plain key packet : List ℕ)
      → Opens m key nonce plain
      → encrypt lib m nonce plain key ≡ ok packet
      → decrypt lib m packet key ≡ ok plain
  unfolding encrypt decrypt new_aead
  decrypt-encrypt no_cipher nonce plain key packet h e = cc e
  decrypt-encrypt aes_128_gcm nonce plain key packet h e =
      with_aead aes_128_gcm nonce plain key packet (aead aes_128_gcm key) refl h e
  decrypt-encrypt aes_256_gcm nonce plain key packet h e =
      with_aead aes_256_gcm nonce plain key packet (aead aes_256_gcm key) refl h e
  decrypt-encrypt chacha20_poly1305 nonce plain key packet h e =
      with_aead chacha20_poly1305 nonce plain key packet (aead chacha20_poly1305 key) refl h e
  decrypt-encrypt xchacha20_poly1305 nonce plain key packet h e =
      with_aead xchacha20_poly1305 nonce plain key packet (aead xchacha20_poly1305 key) refl h e
