-- ===== src/Dccp/Congestion/Timeout.antt =====
-- The retransmission timeout of CCID 2: what losses and acknowledgements make of it.
use native.Mathlib.Nat.{pow-suc}
use oiwest_core.Common.{
  if◌then◌else◌, ℕ, zero, suc, ◌+◌, ◌*◌, ◌-◌, ◌%◌, ◌^◌, ◌≡◌, ◌≤◌, ◌<◌, refl, ap, ◌∙◌, List, [], ◌∷◌,
  All, if◌then◌else◌, arith,
}
use oiwest_core.Dccp.Congestion.{
  Floats, Ccid2, word, millisecond, on_packet_lost, on_packet_acked, on_rto, double_loop, smoothed,
  varied, less, quotient, negated,
}

-- A duration that no sum of OnPacketAcked makes negative.
abbrev pub IsShort : ℕ → Type 0
IsShort d = d < 2 ^ 54

smoothed-IsShort : (srtt rtt : ℕ) → IsShort srtt → IsShort rtt → IsShort (smoothed srtt rtt)
unfolding smoothed quotient
smoothed-IsShort srtt rtt h r = ground arith

varied-IsShort :
    (srtt rttvar rtt : ℕ)
    → IsShort srtt
    → IsShort rttvar
    → IsShort rtt
    → IsShort (varied srtt rttvar rtt)
unfolding varied quotient less negated
varied-IsShort srtt rttvar rtt h v r = ground arith

module _ (fl : Floats) where
  -- What so many losses in a row make of the state.
  unfoldable pub lose : ℕ → Ccid2 fl → Ccid2 fl
  lose zero c = c
  lose (suc n) c = on_packet_lost fl (lose n c)

  unfoldable pub acks : List ℕ → Ccid2 fl → Ccid2 fl
  acks [] c = c
  acks (rtt ∷ rtts) c = acks rtts (on_packet_acked fl rtt c)

-- With a backoff of six or more, the loop doubles six times.
double_loop-six : (b r : ℕ) → 6 ≤ b → double_loop 6 b r ≡ (r * 64) % 2 ^ 64
unfolding double_loop
double_loop-six (suc (suc (suc (suc (suc (suc b)))))) r h = omega arith
double_loop-six zero r h = absurd (omega arith)
double_loop-six (suc zero) r h = absurd (omega arith)
double_loop-six (suc (suc zero)) r h = absurd (omega arith)
double_loop-six (suc (suc (suc zero))) r h = absurd (omega arith)
double_loop-six (suc (suc (suc (suc zero)))) r h = absurd (omega arith)
double_loop-six (suc (suc (suc (suc (suc zero))))) r h = absurd (omega arith)

-- An acknowledgement sets the timeout anew: at least 200 milliseconds.
acked_rto :
    (srtt rttvar : ℕ)
    → IsShort srtt
    → IsShort rttvar
    → (200 * millisecond ≤ (
        if less (word (srtt + 4 * rttvar)) (200 * millisecond)
        then 200 * millisecond
        else word (srtt + 4 * rttvar)))
      × ((if less (word (srtt + 4 * rttvar)) (200 * millisecond)
            then 200 * millisecond
            else word (srtt + 4 * rttvar))
          < 2 ^ 57)
unfolding less
acked_rto srtt rttvar h v = (ground arith, ground arith)

module _ (fl : Floats) where
  -- Acknowledgements do not lower the backoff: after six losses in all, one or more of them leave a timeout
  -- of at least 64 times 200 milliseconds, if the times they measure and those kept are below 2^54.
  pub acks-on_rto :
      (c : Ccid2 fl) (rtt : ℕ) (rtts : List ℕ)
      → 6 ≤ c.backoff
      → IsShort c.srtt
      → IsShort c.rttvar
      → All IsShort (rtt ∷ rtts)
      → 64 * (200 * millisecond) ≤ on_rto fl (acks fl (rtt ∷ rtts) c)
  unfolding acks on_packet_acked on_rto
  acks-on_rto c rtt [] b s v (r, _) =
      let s' = smoothed-IsShort c.srtt rtt s r in
      let v' = varied-IsShort c.srtt c.rttvar rtt s v r in
      let (low, high) = acked_rto (smoothed c.srtt rtt) (varied c.srtt c.rttvar rtt) s' v' in
      rw (double_loop-six c.backoff (on_packet_acked fl rtt c).rto b) (omega arith)
  acks-on_rto c rtt (next ∷ rtts) b s v (r, rest) =
      acks-on_rto (on_packet_acked fl rtt c) next rtts b (smoothed-IsShort c.srtt rtt s r)
        (varied-IsShort c.srtt c.rttvar rtt s v r) rest

  lose-backoff : (n : ℕ) (c : Ccid2 fl) → (lose fl n c).backoff ≡ c.backoff + n
  unfolding lose on_packet_lost
  lose-backoff zero c = omega arith
  lose-backoff (suc n) c = omega (arith, lose-backoff n c)

  lose-add : (a b n : ℕ) (c : Ccid2 fl) → n ≡ a + b → lose fl n c ≡ lose fl a (lose fl b c)
  unfolding lose
  lose-add zero b n c h = ap (λ k. lose fl k c) (omega arith)
  lose-add (suc a) b zero c h = absurd (omega arith)
  lose-add (suc a) b (suc n) c h = ap (on_packet_lost fl) (lose-add a b n c (omega arith))

  -- From a backoff of five on, each loss is worth six doublings.
  lost_rto : (c : Ccid2 fl) → 5 ≤ c.backoff → (on_packet_lost fl c).rto ≡ (c.rto * 64) % 2 ^ 64
  unfolding on_packet_lost
  lost_rto c h = double_loop-six (c.backoff + 1) c.rto (omega arith)

  lose_powers :
      (k : ℕ) (c : Ccid2 fl)
      → 5 ≤ c.backoff
      → (lose fl k c).rto % 2 ^ 64 ≡ (c.rto * 64 ^ k) % 2 ^ 64
  unfolding lose
  lose_powers zero c h = omega arith
  lose_powers (suc k) c h =
      let ih = lose_powers k c h in
      let b = lose-backoff k c in
      let once = lost_rto (lose fl k c) (omega arith) in
      let power = ap (λ p. c.rto * p) (pow-suc 64 k) in omega arith

  zero_stays : (k : ℕ) (c : Ccid2 fl) → 5 ≤ c.backoff → c.rto ≡ 0 → (lose fl k c).rto ≡ 0
  unfolding lose
  zero_stays zero c h z = z
  zero_stays (suc k) c h z =
      let b = lose-backoff k c in
      lost_rto (lose fl k c) (omega arith) ∙ ap (λ r. (r * 64) % 2 ^ 64) (zero_stays k c h z)

  twelve_more : (c : Ccid2 fl) → 5 ≤ c.backoff → (lose fl 12 c).rto ≡ 0
  unfolding lose
  twelve_more c h =
      let b = lose-backoff 11 c in
      let powers = lose_powers 11 c h in lost_rto (lose fl 11 c) (omega arith) ∙ omega arith

  seventeen : (k : ℕ) (c : Ccid2 fl) → (lose fl (k + (12 + 5)) c).rto ≡ 0
  seventeen k c =
      let five = lose-backoff 5 c in
      let b = lose-backoff (12 + 5) c in
      ap (λ d. d.rto) (lose-add k (12 + 5) (k + (12 + 5)) c refl)
      ∙ zero_stays k (lose fl (12 + 5) c) (omega arith) (
          ap (λ d. d.rto) (lose-add 12 5 (12 + 5) c refl) ∙ twelve_more (lose fl 5 c) (omega arith))

  -- After seventeen losses or more with no acknowledgement between, from any state, the timeout is 0.
  pub lose-on_rto : (n : ℕ) (c : Ccid2 fl) → 17 ≤ n → on_rto fl (lose fl n c) ≡ 0
  unfolding on_rto
  lose-on_rto n c h =
      let b = lose-backoff n c in
      double_loop-six (lose fl n c).backoff (lose fl n c).rto (omega arith)
      ∙ ap (λ r. (r * 64) % 2 ^ 64)
          (ap (λ k. (lose fl k c).rto) (omega arith) ∙ seventeen (n - 17) c)
