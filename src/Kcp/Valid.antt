-- ===== src/Kcp/Valid.antt =====
-- The invariant of a session.
use oiwest_core.Common.{
  ℕ, suc, ◌+◌, ◌%◌, ◌^◌, ◌≤◌, ◌≡◌, refl, ap, subst, false, List, [], ◌∷◌, ◌++◌, map, length, All,
  arith,
}
use oiwest_core.Kcp.{Segment, State, overhead, number, transmitted, transmit}

-- The sequence numbers of a send buffer, from a number on.
abbrev pub Numbered : ℕ → List Segment → Type 0
Numbered n [] = Unit
Numbered n (s ∷ q) = (s.sn ≡ n % 2 ^ 32) × Numbered (n + 1) q

pub record IsValid (k : State) : Type 0 where
  pub room : k.reserved + overhead ≤ length k.buf
  pub silent : k.acklist ≡ []
  pub alive : k.dead ≡ false
  pub limit : k.dead_link ≡ 20
  pub fresh : All (λ (s : Segment). s.xmit ≡ 0) k.snd_queue
  pub once : All (λ (s : Segment). s.xmit ≤ 1) k.snd_buf
  pub numbered : Numbered 0 k.snd_buf
  pub next : k.snd_nxt ≡ length k.snd_buf % 2 ^ 32

pub Numbered-append :
    (n : ℕ) (xs ys : List Segment)
    → Numbered n xs
    → Numbered (n + length xs) ys
    → Numbered n (xs ++ ys)
Numbered-append n [] ys hx hy = subst (λ m. Numbered m ys) {x = n + 0} {y = n} (omega arith) hy
Numbered-append n (s ∷ xs) ys (h, hx) hy = (
  h,
  Numbered-append (n + 1) xs ys hx (
      subst (λ m. Numbered m ys) {x = n + suc (length xs)} {y = n + 1 + length xs} (omega arith)
        hy),
)

pub number-Numbered :
    (k : State) (m n : ℕ) (q : List Segment) → m ≡ n % 2 ^ 32 → Numbered n (number k m q)
unfolding number
number-Numbered k m n [] e = tt
number-Numbered k m n (s ∷ q) e = (e, number-Numbered k ((m + 1) % 2 ^ 32) (n + 1) q (omega arith))

pub length-number : (k : State) (n : ℕ) (q : List Segment) → length (number k n q) ≡ length q
unfolding number
length-number k n [] = refl
length-number k n (s ∷ q) = ap suc (length-number k ((n + 1) % 2 ^ 32) q)

pub number-once :
    (k : State) (n : ℕ) (q : List Segment)
    → All (λ (s : Segment). s.xmit ≡ 0) q
    → All (λ (s : Segment). s.xmit ≤ 1) (number k n q)
unfolding number
number-once k n [] h = tt
number-once k n (s ∷ q) (h, hs) = (omega arith, number-once k ((n + 1) % 2 ^ 32) q hs)

pub Numbered-transmit :
    (k : State) (n : ℕ) (q : List Segment) → Numbered n q → Numbered n (map (transmit k) q)
unfolding transmit transmitted
Numbered-transmit k n [] h = tt
Numbered-transmit k n (s ∷ q) (h, hs) = (ground arith, Numbered-transmit k (n + 1) q hs)

pub transmit-once : (k : State) (s : Segment) → s.xmit ≤ 1 → (transmit k s).xmit ≤ 1
unfolding transmit transmitted
transmit-once k s h = ground arith
