-- ===== src/Common/Reading.antt =====
-- Reads of bytes, integers and segments behind a prefix.
use Prim.Native.Nat.{ℕ, zero, suc, ◌+◌, ◌-◌, ◌^◌, ◌<◌}
use mathlib.Core.Path.{◌≡◌, refl, ap}
use mathlib.Core.List.{List, [], ◌∷◌, ◌++◌}
use native.Mathlib.Omega.{arith}
use oiwest_core.Common.Lists.{length}
use oiwest_core.Common.Bytes.{byte_at, u16_at, be16, slice}
use oiwest_core.Common.Copying.{take-append_length, drop-append_length}

pub byte_at-skip :
    (pre xs : List ℕ) (i k : ℕ) → i ≡ length pre + k → byte_at (pre ++ xs) i ≡ byte_at xs k
byte_at-skip [] xs i k h = ap (byte_at xs) (omega arith)
byte_at-skip (p ∷ pre) xs zero k h = absurd (omega arith)
byte_at-skip (p ∷ pre) xs (suc i) k h = byte_at-skip pre xs i k (omega arith)

pub u16_at-skip :
    (pre xs : List ℕ) (v : ℕ) → v < 2 ^ 16 → u16_at (pre ++ (be16 v ++ xs)) (length pre) ≡ v
u16_at-skip pre xs v h =
    rw
      (
        byte_at-skip pre (be16 v ++ xs) (length pre) 0 (omega arith),
        byte_at-skip pre (be16 v ++ xs) (length pre + 1) 1 refl,
      )
      (omega arith)

-- A segment of a list behind a prefix.
pub slice-skip :
    (pre mid suf : List ℕ) (from to : ℕ)
    → from ≡ length pre
    → to ≡ length pre + length mid
    → slice (pre ++ (mid ++ suf)) from to ≡ mid
slice-skip pre mid suf from to f t =
    rw (drop-append_length from pre (mid ++ suf) f)
      (take-append_length (to - from) mid suf (omega arith))
