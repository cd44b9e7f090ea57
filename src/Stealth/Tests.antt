-- ===== src/Stealth/Tests.antt =====
-- The theorems of the obfuscators with a cipher that is a concrete function.
use oiwest_core.Common.{ℕ, ◌≡◌, refl, true, List, [], ◌∷◌, ◌++◌, take, replicate, some, panic}
use oiwest_core.Crypto.{Aead}
use oiwest_core.Stealth.{Xtls, Stream, xtls_obfuscate, vision_obfuscate}
use oiwest_core.Stealth.Frames.{counter_nonce_panics}

abbrev plain_aead : ℕ → Aead
plain_aead n = record {
  nonce_size = n;
  sealed = λ nonce plain. plain ++ 9 ∷ [];
  opened = λ nonce packet. some (take 3 packet);
}

abbrev twelve : Xtls
twelve = record { aead = plain_aead 12; count = 0; command = 1; splitting = true }

counter_nonce_panics_example :
    (xtls_obfuscate twelve 3 (λ n. replicate n 0) (7 ∷ []) ≡ panic)
    × (vision_obfuscate twelve.aead 4 (7 ∷ []) ≡ panic)
counter_nonce_panics_example = counter_nonce_panics twelve 4 3 (λ n. replicate n 0) (7 ∷ []) refl

abbrev eight : Stream
eight = record { read_buf = replicate 8 0; read_pos = 0; read_len = 0 }

abbrev five : List ℕ
five = 1 ∷ 2 ∷ 3 ∷ 4 ∷ 5 ∷ []
