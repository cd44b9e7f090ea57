-- ===== src/Common/Bytes.antt =====
-- Byte slices as lists of numbers below 256: `copy`, slice expressions and the big-endian integers
-- of encoding/binary. A slice made by `make` has its length for capacity, so a slice expression
-- past the length panics.
use Prim.Native.Nat.{ℕ, zero, suc, ◌+◌, ◌-◌, ◌*◌, ◌/◌, ◌%◌, ◌^◌, ◌<◌}
use mathlib.Core.List.{List, [], ◌∷◌}
use oiwest_core.Common.Lists.{get_or, take, drop}

-- Every element is a byte.
abbrev pub IsBytes : List ℕ → Type 0
IsBytes [] = Unit
IsBytes (x ∷ xs) = (x < 256) × IsBytes xs

module _ {ℓ} {A : Type ℓ} where
  -- copy(dst[o:], src): as many elements as fit.
  abbrev pub copy_at : List A → ℕ → List A → List A
  copy_at [] o src = []
  copy_at (x ∷ dst) (suc o) src = x ∷ copy_at dst o src
  copy_at (x ∷ dst) zero [] = x ∷ dst
  copy_at (x ∷ dst) zero (y ∷ src) = y ∷ copy_at dst zero src

  -- data[from:to], where the bounds are in range.
  abbrev pub slice : List A → ℕ → ℕ → List A
  slice xs from to = take (to - from) (drop from xs)

-- binary.BigEndian.PutUint16, PutUint32 and PutUint64 as the bytes that they write.
abbrev pub be16 : ℕ → List ℕ
be16 v = (v / 256 % 256) ∷ (v % 256) ∷ []

abbrev pub be32 : ℕ → List ℕ
be32 v = (v / 2 ^ 24 % 256) ∷ (v / 2 ^ 16 % 256) ∷ (v / 2 ^ 8 % 256) ∷ (v % 256) ∷ []

abbrev pub be64 : ℕ → List ℕ
be64 v =
    (v / 2 ^ 56 % 256)
    ∷ (v / 2 ^ 48 % 256)
    ∷ (v / 2 ^ 40 % 256)
    ∷ (v / 2 ^ 32 % 256)
    ∷ (v / 2 ^ 24 % 256)
    ∷ (v / 2 ^ 16 % 256)
    ∷ (v / 2 ^ 8 % 256)
    ∷ (v % 256)
    ∷ []

-- The byte at an index, 0 where the index is out of range; each use stands under a bounds check.
abbrev pub byte_at : List ℕ → ℕ → ℕ
byte_at xs i = get_or xs i 0

-- binary.BigEndian.Uint16(data[i:i+2]) and Uint64(data[i:i+8]).
abbrev pub u16_at : List ℕ → ℕ → ℕ
u16_at xs i = byte_at xs i * 256 + byte_at xs (i + 1)

abbrev pub u32_at : List ℕ → ℕ → ℕ
u32_at xs i = u16_at xs i * 2 ^ 16 + u16_at xs (i + 2)

abbrev pub u64_at : List ℕ → ℕ → ℕ
u64_at xs i = u32_at xs i * 2 ^ 32 + u32_at xs (i + 4)

-- binary.LittleEndian.
abbrev pub le16 : ℕ → List ℕ
le16 v = (v % 256) ∷ (v / 256 % 256) ∷ []

abbrev pub le32 : ℕ → List ℕ
le32 v = (v % 256) ∷ (v / 2 ^ 8 % 256) ∷ (v / 2 ^ 16 % 256) ∷ (v / 2 ^ 24 % 256) ∷ []

abbrev pub le16_at : List ℕ → ℕ → ℕ
le16_at xs i = byte_at xs i + byte_at xs (i + 1) * 256

abbrev pub le32_at : List ℕ → ℕ → ℕ
le32_at xs i = le16_at xs i + le16_at xs (i + 2) * 2 ^ 16
