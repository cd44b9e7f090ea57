-- ===== src/Common/Copying.antt =====
-- Laws of `copy_at`, `set`, `take` and `drop` on a buffer that is split at the write offset.
use Prim.Native.Nat.{◌-◌, ℕ, zero, suc, ◌+◌, ◌≤◌, min}
use mathlib.Core.Path.{◌≡◌, refl, sym, ap, ◌∙◌}
use mathlib.Core.List.{List, [], ◌∷◌, ◌++◌}
use native.Mathlib.Omega.{arith}
use oiwest_core.Common.Lists.{length, set, take, drop, replicate}
use oiwest_core.Common.Bytes.{copy_at}

module _ {ℓ} {A : Type ℓ} where
  pub take_all : (n : ℕ) (xs : List A) → length xs ≤ n → take n xs ≡ xs
  take_all zero [] h = refl
  take_all zero (x ∷ xs) h = elim h [ ]
  take_all (suc n) [] h = refl
  take_all (suc n) (x ∷ xs) h = ap (λ r. x ∷ r) (take_all n xs (omega arith))

  pub drop_all : (n : ℕ) (xs : List A) → length xs ≤ n → drop n xs ≡ []
  drop_all zero [] h = refl
  drop_all zero (x ∷ xs) h = elim h [ ]
  drop_all (suc n) [] h = refl
  drop_all (suc n) (x ∷ xs) h = drop_all n xs (omega arith)

  pub take-append_length : (n : ℕ) (xs ys : List A) → n ≡ length xs → take n (xs ++ ys) ≡ xs
  take-append_length zero [] ys h = refl
  take-append_length zero (x ∷ xs) ys h = absurd (omega arith)
  take-append_length (suc n) [] ys h = absurd (omega arith)
  take-append_length (suc n) (x ∷ xs) ys h =
      ap (λ r. x ∷ r) (take-append_length n xs ys (omega arith))

  pub drop-append_length : (n : ℕ) (xs ys : List A) → n ≡ length xs → drop n (xs ++ ys) ≡ ys
  drop-append_length zero [] ys h = refl
  drop-append_length zero (x ∷ xs) ys h = absurd (omega arith)
  drop-append_length (suc n) [] ys h = absurd (omega arith)
  drop-append_length (suc n) (x ∷ xs) ys h = drop-append_length n xs ys (omega arith)

  pub drop_nil : (n : ℕ) → drop {A = A} n [] ≡ []
  drop_nil zero = refl
  drop_nil (suc n) = refl

  pub drop-drop : (n m : ℕ) (xs : List A) → drop n (drop m xs) ≡ drop (m + n) xs
  drop-drop n zero xs = ap (λ k. drop k xs) (omega arith)
  drop-drop n (suc m) [] = rw (drop_nil n, drop_nil (suc m + n))
  drop-drop n (suc m) (x ∷ xs) =
      drop-drop n m xs ∙ ap (λ k. drop k (x ∷ xs)) {x = suc (m + n)} (omega arith)

  -- A write past a prefix leaves the prefix alone.
  pub copy_at-skip :
      (pre mid : List A) (o k : ℕ) (src : List A)
      → o ≡ length pre + k
      → copy_at (pre ++ mid) o src ≡ pre ++ copy_at mid k src
  copy_at-skip [] mid o k src h = ap (λ i. copy_at mid i src) (omega arith)
  copy_at-skip (x ∷ pre) mid zero k src h = absurd (omega arith)
  copy_at-skip (x ∷ pre) mid (suc o) k src h =
      ap (λ r. x ∷ r) (copy_at-skip pre mid o k src (omega arith))

  pub set-skip :
      (pre mid : List A) (o k : ℕ) (v : A)
      → o ≡ length pre + k
      → set (pre ++ mid) o v ≡ pre ++ set mid k v
  set-skip [] mid o k v h = ap (λ i. set mid i v) (omega arith)
  set-skip (x ∷ pre) mid zero k v h = absurd (omega arith)
  set-skip (x ∷ pre) mid (suc o) k v h = ap (λ r. x ∷ r) (set-skip pre mid o k v (omega arith))

  -- A write at the start replaces as many elements as it has.
  pub copy_at-zero :
      (mid src : List A)
      → length src ≤ length mid
      → copy_at mid 0 src ≡ src ++ drop (length src) mid
  copy_at-zero [] [] h = refl
  copy_at-zero [] (y ∷ src) h = elim h [ ]
  copy_at-zero (x ∷ mid) [] h = refl
  copy_at-zero (x ∷ mid) (y ∷ src) h = ap (λ r. y ∷ r) (copy_at-zero mid src (omega arith))

  pub length-copy_at :
      (dst : List A) (o : ℕ) (src : List A) → length (copy_at dst o src) ≡ length dst
  length-copy_at [] o src = refl
  length-copy_at (x ∷ dst) zero [] = refl
  length-copy_at (x ∷ dst) zero (y ∷ src) = ap suc (length-copy_at dst zero src)
  length-copy_at (x ∷ dst) (suc o) src = ap suc (length-copy_at dst o src)

  pub replicate-add : (m n : ℕ) (v : A) → replicate (m + n) v ≡ replicate m v ++ replicate n v
  replicate-add zero n v = ap (λ k. replicate k v) (omega arith)
  replicate-add (suc m) n v =
      ap (λ k. replicate k v) {y = suc (m + n)} (omega arith)
      ∙ ap (λ r. v ∷ r) (replicate-add m n v)

  pub take-min : (n : ℕ) (xs : List A) → take (min n (length xs)) xs ≡ take n xs
  take-min zero xs = ap (λ k. take k xs) {x = min 0 (length xs)} {y = 0} (omega arith)
  take-min (suc n) [] = ap (λ k. take {A = A} k []) {x = min (suc n) 0} {y = 0} (omega arith)
  take-min (suc n) (x ∷ xs) =
      ap (λ k. take k (x ∷ xs)) {x = min (suc n) (suc (length xs))} {y = suc (min n (length xs))}
        (omega arith)
      ∙ ap (λ r. x ∷ r) (take-min n xs)

  pub take_past :
      (n : ℕ) (xs ys : List A) → length xs ≤ n → take n (xs ++ ys) ≡ xs ++ take (n - length xs) ys
  take_past n [] ys h = ap (λ k. take k ys) {x = n} {y = n - 0} (omega arith)
  take_past zero (x ∷ xs) ys h = elim h [ ]
  take_past (suc n) (x ∷ xs) ys h =
      ap (λ r. x ∷ r)
        (take_past n xs ys (omega arith)
          ∙ ap (λ k. xs ++ take k ys) {y = suc n - suc (length xs)} (omega arith))

  pub drop-take : (n m : ℕ) (xs : List A) → n ≤ m → drop n (take m xs) ≡ take (m - n) (drop n xs)
  drop-take zero m xs h = ap (λ k. take k xs) {y = m - 0} (omega arith)
  drop-take (suc n) zero xs h = elim h [ ]
  drop-take (suc n) (suc m) [] h = sym (take_nil (suc m - suc n))
    where
      take_nil : (k : ℕ) → take {A = A} k [] ≡ []
      take_nil zero = refl
      take_nil (suc k) = refl
  drop-take (suc n) (suc m) (x ∷ xs) h =
      drop-take n m xs (omega arith)
      ∙ ap (λ k. take k (drop n xs)) {y = suc m - suc n} (omega arith)

  pub take-append_le : (n : ℕ) (xs ys : List A) → n ≤ length xs → take n (xs ++ ys) ≡ take n xs
  take-append_le zero xs ys h = refl
  take-append_le (suc n) [] ys h = elim h [ ]
  take-append_le (suc n) (x ∷ xs) ys h = ap (λ r. x ∷ r) (take-append_le n xs ys (omega arith))

  pub drop-append_le :
      (n : ℕ) (xs ys : List A) → n ≤ length xs → drop n (xs ++ ys) ≡ drop n xs ++ ys
  drop-append_le zero xs ys h = refl
  drop-append_le (suc n) [] ys h = elim h [ ]
  drop-append_le (suc n) (x ∷ xs) ys h = drop-append_le n xs ys (omega arith)

  pub take-take_le : (n m : ℕ) (xs : List A) → n ≤ m → take n (take m xs) ≡ take n xs
  take-take_le zero m xs h = refl
  take-take_le (suc n) zero xs h = elim h [ ]
  take-take_le (suc n) (suc m) [] h = refl
  take-take_le (suc n) (suc m) (x ∷ xs) h = ap (λ r. x ∷ r) (take-take_le n m xs (omega arith))
