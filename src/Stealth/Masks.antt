-- ===== src/Stealth/Masks.antt =====
-- The obfuscator that masks bytes with a key.
use oiwest_core.Common.{
  ℕ, zero, suc, ◌+◌, ◌%◌, ◌≡◌, ◌<◌, refl, ap, ◌∙◌, ◌==◌, false, List, [], ◌∷◌, length, replicate,
  byte_at, IsBytes, ok, ◌>>=◌, arith, length-replicate,
}
use oiwest_core.Common.Bits.{xor-xor, xor_zero, byte-Fits}
use oiwest_core.Stealth.{xor_loop, random_obfuscate, random_reset}

xor_loop-xor_loop :
    (key : List ℕ) (i : ℕ) (plain : List ℕ)
    → IsBytes plain
    → xor_loop key i (xor_loop key i plain) ≡ plain
unfolding xor_loop
xor_loop-xor_loop key i [] h = refl
xor_loop-xor_loop key i (x ∷ xs) (hx, hs) = rw (
  xor-xor 8 x (byte_at key (i % length key)) (byte-Fits x hx),
  xor_loop-xor_loop key (i + 1) xs hs,
)

length-xor_loop :
    (key : List ℕ) (i : ℕ) (plain : List ℕ) → length (xor_loop key i plain) ≡ length plain
unfolding xor_loop
length-xor_loop key i [] = refl
length-xor_loop key i (x ∷ xs) = ap suc (length-xor_loop key (i + 1) xs)

random_obfuscate_ok :
    (key plain : List ℕ) → 0 < length key → random_obfuscate key plain ≡ ok (xor_loop key 0 plain)
unfolding random_obfuscate
random_obfuscate_ok [] plain h = absurd (omega arith)
random_obfuscate_ok (k ∷ ks) plain h = rw (nonempty (length ks)) refl
  where
    nonempty : (n : ℕ) → (suc n == 0) ≡ false
    nonempty n = ground arith

-- Deobfuscate, which is Obfuscate again, gives the bytes back under any key that is not empty; both
-- calls return.
pub random_obfuscate-random_obfuscate :
    (key plain : List ℕ)
    → 0 < length key
    → IsBytes plain
    → (random_obfuscate key plain >>= random_obfuscate key) ≡ ok plain
random_obfuscate-random_obfuscate key plain h v = rw (
  random_obfuscate_ok key plain h,
  random_obfuscate_ok key (xor_loop key 0 plain) h,
  xor_loop-xor_loop key 0 plain v,
)

byte_at-replicate : (n i : ℕ) → byte_at (replicate n 0) i ≡ 0
byte_at-replicate zero i = refl
byte_at-replicate (suc n) zero = refl
byte_at-replicate (suc n) (suc i) = byte_at-replicate n i

xor_loop_zero :
    (n i : ℕ) (plain : List ℕ) → IsBytes plain → xor_loop (replicate n 0) i plain ≡ plain
unfolding xor_loop
xor_loop_zero n i [] h = refl
xor_loop_zero n i (x ∷ xs) (hx, hs) = rw (
  byte_at-replicate n (i % length (replicate {A = ℕ} n 0)),
  xor_zero 8 x (byte-Fits x hx),
  xor_loop_zero n (i + 1) xs hs,
)

-- After Reset an obfuscator whose key is not empty sends every plaintext as it is.
pub random_obfuscate-random_reset :
    (key plain : List ℕ)
    → 0 < length key
    → IsBytes plain
    → random_obfuscate (random_reset key) plain ≡ ok plain
unfolding random_reset
random_obfuscate-random_reset key plain h v =
    random_obfuscate_ok (replicate (length key) 0) plain
      (omega (arith, length-replicate (length key) zero, h))
    ∙ ap ok (xor_loop_zero (length key) 0 plain v)
