-- ===== src/Stealth/Frames.antt =====
-- The obfuscators that put bytes behind a header.
use oiwest_core.Common.{
  append-nil, ℕ, suc, ◌+◌, ◌*◌, ◌/◌, ◌%◌, ◌^◌, ◌≡◌, ◌≢◌, ◌<◌, ◌≤◌, inl, inr, refl, sym, ap, ◌∙◌,
  ◌==◌, false, List, [], ◌∷◌, ◌++◌, length, take, drop, slice, u16_at, be16, lt→ltb, le→ltb_false,
  length-append, append_assoc, some, ok, panic, ◌>>=◌, if◌then◌else◌, arith, Bool-cases, ==_iff,
}
use oiwest_core.Common.Reading.{u16_at-skip, slice-skip}
use oiwest_core.Common.Copying.{take-append_length, drop-append_length}
use oiwest_core.Crypto.{Aead, seal, open_, encrypt, decrypt, next}
use oiwest_core.Stealth.{
  pad_obfuscate, pad_deobfuscate, Xtls, xtls_obfuscate, vision_obfuscate, reality_obfuscate,
  reality_deobfuscate,
}

behind :
    (n : ℕ) (pad plain : List ℕ)
    → n ≡ length pad
    → n < 2 ^ 16
    → pad_deobfuscate (be16 n ++ (pad ++ plain)) ≡ ok plain
unfolding pad_deobfuscate
behind n pad plain e small =
    let back : n / 256 % 256 * 256 + n % 256 ≡ n = omega arith in
    let size = length-append pad plain in
    rw
      (
        back,
        le→ltb_false (suc (suc (length (pad ++ plain)))) 2 (omega arith),
        le→ltb_false (suc (suc (length (pad ++ plain)))) (2 + n) (omega arith),
      )
      (ap (λ k. ok (drop k ((n / 256 % 256) ∷ (n % 256) ∷ (pad ++ plain)))) {x = 2 + n}
          {y = suc (suc n)} (omega arith)
        ∙ ap ok (drop-append_length n pad plain e))

-- What was padded comes back, when the bounds are in order, the generator gives as many bytes as it
-- is asked for and the padding is shorter than 65536 bytes.
pub pad_deobfuscate-pad_obfuscate :
    (padding_min padding_max draw : ℕ) (noise : ℕ → List ℕ) (plain : List ℕ)
    → padding_min ≤ padding_max
    → ((n : ℕ) → length (noise n) ≡ n)
    → draw + padding_min < 2 ^ 16
    → (pad_obfuscate padding_min padding_max draw noise plain >>= pad_deobfuscate) ≡ ok plain
unfolding pad_obfuscate
pad_deobfuscate-pad_obfuscate padding_min padding_max draw noise plain order sizes small =
    rw (lt→ltb padding_min (padding_max + 1) (omega (arith, order))) (
      behind (draw + padding_min) (noise (draw + padding_min)) plain
        (sym (sizes (draw + padding_min))) small)

wrong_size : (a b : ℕ) → a ≢ b → (a == b) ≡ false
wrong_size a b h = elim (Bool-cases (a == b)) [ inl e ↦ absurd (h ((==_iff a b).0 e)) | inr e ↦ e ]

seal_panics :
    (a : Aead) (nonce plain : List ℕ) → length nonce ≢ a.nonce_size → seal a nonce plain ≡ panic
unfolding seal
seal_panics a nonce plain h = rw (wrong_size (length nonce) a.nonce_size h) refl

open_panics :
    (a : Aead) (nonce packet : List ℕ) → length nonce ≢ a.nonce_size → open_ a nonce packet ≡ panic
unfolding open_
open_panics a nonce packet h = rw (wrong_size (length nonce) a.nonce_size h) refl

-- The counter's eight bytes are no nonce of a cipher whose nonces have twelve, as those of GCM do:
-- XTLSObfuscator and VisionObfuscator panic on every plaintext.
pub counter_nonce_panics :
    (x : Xtls) (count pad : ℕ) (noise : ℕ → List ℕ) (plain : List ℕ)
    → x.aead.nonce_size ≡ 12
    → (xtls_obfuscate x pad noise plain ≡ panic) × (vision_obfuscate x.aead count plain ≡ panic)
unfolding xtls_obfuscate vision_obfuscate next
counter_nonce_panics x count pad noise plain h =
    let eight : 8 ≢ x.aead.nonce_size = λ e. omega (arith, e, h) in
    (
      rw (seal_panics x.aead (next x.count).1 (if x.splitting then take 900 plain else plain) eight)
          refl,
      rw (seal_panics x.aead (next count).1 plain eight) refl,
    )

-- A sealed packet behind its nonce is what Encrypt makes, and Decrypt opens it.
encrypt_ok :
    (a : Aead) (nonce plain : List ℕ)
    → length nonce ≡ a.nonce_size
    → encrypt a nonce plain ≡ ok (nonce ++ a.sealed nonce plain)
unfolding encrypt seal
encrypt_ok a nonce plain n = rw ((==_iff (length nonce) a.nonce_size).1 n) refl

pub decrypt_ok :
    (a : Aead) (nonce plain : List ℕ)
    → length nonce ≡ a.nonce_size
    → a.opened nonce (a.sealed nonce plain) ≡ some plain
    → decrypt a (nonce ++ a.sealed nonce plain) ≡ ok plain
unfolding decrypt open_
decrypt_ok a nonce plain n o =
    let size = length-append nonce (a.sealed nonce plain) in
    rw
      (
        le→ltb_false (length (nonce ++ a.sealed nonce plain)) a.nonce_size (omega (arith, n)),
        take-append_length a.nonce_size nonce (a.sealed nonce plain) (sym n),
        drop-append_length a.nonce_size nonce (a.sealed nonce plain) (sym n),
        (==_iff (length nonce) a.nonce_size).1 n,
        o,
      )
      refl

-- The frame of a packet behind a short id.
unframed :
    (a : Aead) (short_id packet : List ℕ)
    → length short_id < 256
    → length packet < 2 ^ 16
    → reality_deobfuscate a (length short_id % 256 ∷ (short_id ++ (be16 (length packet) ++ packet)))
      ≡ decrypt a packet
unfolding reality_deobfuscate
unframed a short_id packet i p =
    let n : length short_id % 256 ≡ length short_id = omega arith in
    let pre = length short_id ∷ short_id in
    let all : List ℕ = pre ++ (be16 (length packet) ++ packet) in
    let size = length-append short_id (be16 (length packet) ++ packet) in
    let at : u16_at all (1 + length short_id) ≡ length packet =
      ap (u16_at all) {x = 1 + length short_id} {y = suc (length short_id)} (omega arith)
      ∙ u16_at-skip pre packet (length packet) p in
    let from = 1 + length short_id + 2 in
    let whole : all ≡ pre ++ be16 (length packet) ++ (packet ++ []) =
      sym (append_assoc pre (be16 (length packet)) packet)
      ∙ ap (λ r. pre ++ be16 (length packet) ++ r) (sym (append-nil packet)) in
    let header = length-append short_id (be16 (length packet)) in
    let cut : slice all from (from + length packet) ≡ packet =
      ap (λ r. slice r from (from + length packet)) whole
      ∙ slice-skip (pre ++ be16 (length packet)) packet [] from (from + length packet)
          (omega (arith, header)) (omega (arith, header)) in
    rw
      (
        n,
        at,
        le→ltb_false (length all) 3 (omega (arith, size)),
        le→ltb_false (length all) (1 + length short_id + 2) (omega (arith, size)),
        le→ltb_false (length all) (1 + length short_id + 2 + length packet) (omega (arith, size)),
        cut,
      )
      refl

-- A frame of RealityObfuscator comes back as its plaintext, when the nonce fits the cipher, which
-- opens what it seals with it, and the short id and the packet fit their length fields.
pub reality_deobfuscate-reality_obfuscate :
    (a : Aead) (short_id nonce plain : List ℕ)
    → length nonce ≡ a.nonce_size
    → a.opened nonce (a.sealed nonce plain) ≡ some plain
    → length short_id < 256
    → length (nonce ++ a.sealed nonce plain) < 2 ^ 16
    → (reality_obfuscate a short_id nonce plain >>= reality_deobfuscate a) ≡ ok plain
unfolding reality_obfuscate
reality_deobfuscate-reality_obfuscate a short_id nonce plain n o i p = rw (
  encrypt_ok a nonce plain n,
  unframed a short_id (nonce ++ a.sealed nonce plain) i p,
  decrypt_ok a nonce plain n o,
)
