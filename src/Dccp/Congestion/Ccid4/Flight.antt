-- ===== src/Dccp/Congestion/Ccid4/Flight.antt =====
-- The packets in flight of CCID 4: how many it lets go.
use oiwest_core.Common.{ℕ, zero, suc, ◌+◌, ◌-◌, ◌%◌, ◌^◌, ◌≡◌, ◌<◌, refl, ◌∙◌, true, ltb, arith}
use oiwest_core.Dccp.Congestion.{Floats, double_loop, less}
use oiwest_core.Dccp.Congestion.Ccid4.{
  Ccid4, on_packet_sent, on_packet_lost, on_packet_acked, on_rto, can_send,
}

module _ (fl : Floats) where
  unfoldable pub sends : ℕ → Ccid4 fl → Ccid4 fl
  sends zero c = c
  sends (suc n) c = on_packet_sent fl (sends n c)

  unfoldable pub losses : ℕ → Ccid4 fl → Ccid4 fl
  losses zero c = c
  losses (suc n) c = on_packet_lost fl (losses n c)

  sends_lem :
      (n : ℕ) (c : Ccid4 fl)
      → c.in_flight + n < 2 ^ 63
      → ((sends n c).in_flight ≡ c.in_flight + n) × ((sends n c).max_in_flight ≡ c.max_in_flight)
  unfolding sends on_packet_sent
  sends_lem zero c h = (omega arith, refl)
  sends_lem (suc n) c h =
      let (sum, most) = sends_lem n c (omega arith) in (omega (arith, sum), most)

  -- From a state of which neither number is negative, with nothing lost or acknowledged, it lets a packet go
  -- as long as fewer are in flight than the most.
  pub can_send-sends :
      (n : ℕ) (c : Ccid4 fl)
      → c.in_flight + n < 2 ^ 63
      → c.max_in_flight < 2 ^ 63
      → can_send fl (sends n c) ≡ ltb (c.in_flight + n) c.max_in_flight
  unfolding can_send less
  can_send-sends n c h m = let (sum, most) = sends_lem n c h in rw (sum, most) (ground arith)

  losses-word :
      (n : ℕ) (c : Ccid4 fl)
      → c.in_flight ≡ 0
      → n < 2 ^ 63
      → (losses n c).in_flight ≡ (2 ^ 64 - n) % 2 ^ 64
  unfolding losses on_packet_lost
  losses-word zero c z h = omega (arith, z)
  losses-word (suc n) c z h = let ih = losses-word n c z (omega arith) in omega (arith, ih)

  -- Losses with no packet in flight make the number negative: it is the word of minus their number, which is
  -- below any most that is not negative.
  pub losses-in_flight :
      (n most : ℕ) (c : Ccid4 fl)
      → c.in_flight ≡ 0
      → 0 < n
      → n < 2 ^ 63
      → most < 2 ^ 63
      → ((losses n c).in_flight ≡ 2 ^ 64 - n) × (less (losses n c).in_flight most ≡ true)
  unfolding less
  losses-in_flight n most c z p h m =
      let minus : (losses n c).in_flight ≡ 2 ^ 64 - n = losses-word n c z h ∙ omega arith in
      (minus, rw (minus) (ground arith))

  -- An acknowledgement ends the backoff: the timeout is no longer doubled.
  pub on_rto-on_packet_acked :
      (rtt : ℕ) (c : Ccid4 fl)
      → on_rto fl (on_packet_acked fl rtt c) ≡ (on_packet_acked fl rtt c).rto
  unfolding on_rto on_packet_acked double_loop
  on_rto-on_packet_acked rtt c = refl
