-- ===== src/Dccp/Packet/Fold.antt =====
-- The end-around carry of computeChecksum: three rounds end the loop, and the result is the sum
-- modulo 2^16 - 1.
use oiwest_core.Common.{
  ℕ, suc, ◌+◌, ◌-◌, ◌/◌, ◌%◌, ◌^◌, ◌≤◌, ◌<◌, ◌≡◌, sym, ◌∙◌, inl, inr, List, [], ◌∷◌, ◌==◌,
  if◌then◌else◌, Bool-cases, arith,
}
use oiwest_core.Dccp.Packet.{word_sum, fold_loop, compute_checksum}

-- The one's complement sum: 0 only for 0, and otherwise the representative in 1 .. 65535.
unfoldable pub residue : ℕ → ℕ
residue s = if s == 0 then 0 else (s - 1) % 65535 + 1

abbrev carry : ℕ → ℕ
carry s = (s % 2 ^ 16 + s / 2 ^ 16) % 2 ^ 32

residue-carry : (s : ℕ) → s < 2 ^ 32 → residue (carry s) ≡ residue s
unfolding residue
residue-carry s h = ground arith

residue_small : (s : ℕ) → s < 2 ^ 16 → residue s ≡ s
unfolding residue
residue_small s h = ground arith

residue-lt : (s : ℕ) → residue s < 2 ^ 16
unfolding residue
residue-lt s = ground arith

-- One round either ends the loop at its result or passes on a sum of the same residue.
fold_round :
    (f s : ℕ)
    → s < 2 ^ 32
    → ((2 ^ 16 ≤ s) → fold_loop f (carry s) ≡ residue (carry s))
    → fold_loop (suc f) s ≡ residue s
unfolding fold_loop
fold_round f s h rest = elim (Bool-cases (s / 2 ^ 16 == 0)) [
  | inl done ↦ rw (done, fold_loop) (sym (residue_small s (ground arith)))
  | inr more ↦ rw (more, fold_loop) (rest (ground arith) ∙ residue-carry s h)
]

fold_once : (f s : ℕ) → s < 2 ^ 16 → fold_loop (suc f) s ≡ residue s
fold_once f s h = fold_round f s (omega arith) (λ p. absurd (omega arith))

fold_twice : (f s : ℕ) → s < 2 ^ 17 - 1 → fold_loop (suc (suc f)) s ≡ residue s
fold_twice f s h = fold_round (suc f) s (omega arith) (λ p. fold_once f (carry s) (omega arith))

-- Three rounds of the carry loop are enough on every uint32: with any more fuel the result is the
-- one's complement residue of the sum, which has no high half left.
pub fold_loop-residue :
    (f s : ℕ) → s < 2 ^ 32 → (fold_loop (3 + f) s ≡ residue s) × (fold_loop (3 + f) s / 2 ^ 16 ≡ 0)
fold_loop-residue f s h = rw (three f) (loop, rw loop (omega (arith, residue-lt s)))
  where
    three : (n : ℕ) → 3 + n ≡ suc (suc (suc n))
    three n = omega arith

    loop : fold_loop (suc (suc (suc f))) s ≡ residue s
    loop = fold_round (suc (suc f)) s h (λ p. fold_twice f (carry s) (omega arith))

word_sum-lt : (bytes : List ℕ) (sum : ℕ) → sum < 2 ^ 32 → word_sum bytes sum < 2 ^ 32
unfolding word_sum
word_sum-lt [] sum h = h
word_sum-lt (b ∷ []) sum h = omega arith
word_sum-lt (a ∷ b ∷ rest) sum h = word_sum-lt rest _ (omega arith)

-- computeChecksum is the complement of the residue of the word sum.
pub compute_checksum-residue :
    (bytes : List ℕ) → compute_checksum bytes ≡ 2 ^ 16 - 1 - residue (word_sum bytes 0)
unfolding compute_checksum
compute_checksum-residue bytes = omega (
  arith,
  (fold_loop-residue 0 (word_sum bytes 0) (word_sum-lt bytes 0 (omega arith))).0,
  residue-lt (word_sum bytes 0),
)

pub compute_checksum-lt : (bytes : List ℕ) → compute_checksum bytes < 2 ^ 16
unfolding compute_checksum
compute_checksum-lt bytes = omega arith
