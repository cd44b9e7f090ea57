-- ===== src/Common/Bits.antt =====
-- The exclusive or of two numbers of so many bits.
use Prim.Native.Nat.{ℕ, zero, suc, ◌+◌, ◌*◌, ◌/◌, ◌%◌, ◌<◌}
use mathlib.Core.Path.{◌≡◌}
use native.Mathlib.Omega.{arith}

unfoldable pub xor : ℕ → ℕ → ℕ → ℕ
xor zero a b = 0
xor (suc w) a b = (a % 2 + b % 2) % 2 + 2 * xor w (a / 2) (b / 2)

-- Numbers of so many bits.
abbrev pub Fits : ℕ → ℕ → Type 0
Fits zero a = a ≡ 0
Fits (suc w) a = Fits w (a / 2)

pub xor-xor : (w a b : ℕ) → Fits w a → xor w (xor w a b) b ≡ a
unfolding xor
xor-xor zero a b h = omega (arith, h)
xor-xor (suc w) a b h =
    let low = (a % 2 + b % 2) % 2 in
    let rest = xor w (a / 2) (b / 2) in
    let half : (low + 2 * rest) / 2 ≡ rest = omega arith in
    let bit : (low + 2 * rest) % 2 ≡ low = omega arith in
    rw (half, bit, xor-xor w (a / 2) (b / 2) h) (omega arith)

pub xor_zero : (w a : ℕ) → Fits w a → xor w a 0 ≡ a
unfolding xor
xor_zero zero a h = omega (arith, h)
xor_zero (suc w) a h = omega (arith, xor_zero w (a / 2) h)

pub byte-Fits : (a : ℕ) → a < 256 → Fits 8 a
byte-Fits a h = omega arith
