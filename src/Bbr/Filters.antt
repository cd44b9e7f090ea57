-- ===== src/Bbr/Filters.antt =====
-- The filters of the last measurements.
use oiwest_core.Common.{
  if_both, leb, ◌||◌, inr, inl, ℕ, zero, suc, ◌+◌, ◌-◌, ◌%◌, ◌≤◌, ◌<◌, ◌≡◌, refl, ap, ◌∙◌, ◌&&◌,
  ltb, lt→ltb, if◌then◌else◌, Bool-cases, List, [], ◌∷◌, length, set, length-replicate, ok, arith,
}
use oiwest_core.Common.Lists.{length-set}
use oiwest_core.Dccp.Congestion.{word, hour}
use oiwest_core.Bbr.State.{
  Floats, Mode, startup, drain, probe_bw, probe_rtt, State, Config, new_state,
}
use oiwest_core.Bbr.Update.{
  least, update_min_rtt_filter, update_bw_filter, advance, advance_mode, update_pacing_rate,
  update_cwnd,
}
use oiwest_core.Bbr.Events.{measured, rated, advance_startup, on_packet_acked}

next_in_range : (x n m : ℕ) → x < n → m ≡ n → (x + 1) % m < m
next_in_range x n m h e = omega arith

module _ (fl : Floats) where
  least-le-start : (m : ℕ) (xs : List ℕ) → least fl m xs ≤ m
  unfolding least
  least-le-start m [] = omega arith
  least-le-start m (x ∷ xs) = let h = least-le-start (if ltb x m then x else m) xs in ground arith

  least-set : (m : ℕ) (xs : List ℕ) (i x : ℕ) → i < length xs → least fl m (set xs i x) ≤ x
  unfolding least
  least-set m [] i x h = absurd (omega arith)
  least-set m (y ∷ xs) zero x h =
      let le = least-le-start (if ltb x m then x else m) xs in ground arith
  least-set m (y ∷ xs) (suc i) x h = least-set (if ltb y m then y else m) xs i x (omega arith)

  -- The next place of each filter is one that it has.
  pub record IsRing (s : State fl) : Type 0 where
    pub bw_place : s.bw_filter_idx < length s.bw_filter
    pub rtt_place : s.min_rtt_idx < length s.min_rtt_filter

  pub new_state-IsRing :
      (config : Config fl)
      → 0 < config.bw_filter_len
      → 0 < config.rtt_filter_len
      → IsRing (new_state fl config)
  unfolding new_state
  new_state-IsRing config b r = record {
    bw_place = omega (arith, length-replicate config.bw_filter_len (fl.hundredths 0));
    rtt_place = omega (arith, length-replicate config.rtt_filter_len hour);
  }

  measured_lem :
      (rtt : ℕ) (s : State fl)
      → IsRing s
      → (s' : State fl) × (measured fl rtt s ≡ ok s')
        × IsRing s'
        × (s'.min_rtt ≤ rtt)
        × (s'.min_rtt ≤ hour)
  unfolding measured update_min_rtt_filter
  measured_lem rtt s v =
      let filter = set s.min_rtt_filter s.min_rtt_idx rtt in
      let n = length-set s.min_rtt_filter s.min_rtt_idx rtt in
      let p = v.rtt_place in
      (
        record s {
          latest_rtt = rtt;
          min_rtt_filter = filter;
          min_rtt_idx = (s.min_rtt_idx + 1) % length filter;
          min_rtt = least fl hour filter;
        },
        rw (lt→ltb s.min_rtt_idx (length s.min_rtt_filter) p) refl,
        record {
          bw_place = v.bw_place;
          rtt_place = next_in_range s.min_rtt_idx (length s.min_rtt_filter) (length filter) p n;
        },
        least-set hour s.min_rtt_filter s.min_rtt_idx rtt p,
        least-le-start hour filter,
      )

  rated_lem :
      (size rtt : ℕ) (s : State fl)
      → IsRing s
      → (s' : State fl) × (rated fl size rtt s ≡ ok s') × IsRing s' × (s'.min_rtt ≡ s.min_rtt)
  unfolding rated update_bw_filter
  rated_lem size rtt s v =
      let rate = fl.over (fl.of_count size) (fl.seconds rtt) in
      let p = v.bw_place in
      let n = length-set s.bw_filter s.bw_filter_idx rate in
      elim (Bool-cases (ltb 0 size && fl.below (fl.hundredths 0) rate)) [
        | inl yes_ ↦
            rw (yes_, lt→ltb s.bw_filter_idx (length s.bw_filter) p)
              (
                _,
                refl,
                record {
                  bw_place =
                      next_in_range s.bw_filter_idx (length s.bw_filter)
                        (length (set s.bw_filter s.bw_filter_idx rate)) p n;
                  rtt_place = v.rtt_place;
                },
                refl,
              )
        | inr no_ ↦ (s, rw no_ refl, v, refl)
      ]

  -- What the updates behind the filters keep.
  abbrev Same : State fl → State fl → Type 0
  Same s s' =
      (s'.min_rtt ≡ s.min_rtt)
      × (s'.bw_filter ≡ s.bw_filter)
      × (s'.bw_filter_idx ≡ s.bw_filter_idx)
      × (s'.min_rtt_filter ≡ s.min_rtt_filter)
      × (s'.min_rtt_idx ≡ s.min_rtt_idx)

  advance-Same :
      (now : ℕ) (s : State fl) → (s' : State fl) × (advance fl now startup s ≡ ok s') × Same s s'
  unfolding advance
  advance-Same now s = (
    _,
    refl,
    if_both (Same s) (fl.same s.bw_max s.bw_latest && s.full_bw)
        (if_both (Same s) (leb 3 (word (s.full_bw_count + 1))) (refl, refl, refl, refl, refl)
          (refl, refl, refl, refl, refl))
        (refl, refl, refl, refl, refl),
  )

  advance_startup-Same :
      (now : ℕ) (m : Mode) (s : State fl)
      → s.mode ≡ m
      → (s' : State fl) × (advance_startup fl now m s ≡ ok s') × Same s s'
  unfolding advance_startup advance_mode
  advance_startup-Same now startup s e =
      let (s', h, same_) = advance-Same now s in (s', ap (λ m. advance fl now m s) e ∙ h, same_)
  advance_startup-Same now drain s e = (s, refl, (refl, refl, refl, refl, refl))
  advance_startup-Same now probe_bw s e = (s, refl, (refl, refl, refl, refl, refl))
  advance_startup-Same now probe_rtt s e = (s, refl, (refl, refl, refl, refl, refl))

  update-Same : (s : State fl) → Same s (update_cwnd fl (update_pacing_rate fl s))
  unfolding update_cwnd update_pacing_rate
  update-Same s =
      let rate = fl.times (fl.times s.bw s.pacing_gain) (fl.of_count s.mss) in
      if_both (Same s)
        (fl.below (fl.hundredths 0) s.bw
          && fl.below (fl.hundredths 0) s.pacing_gain
          && (fl.below s.pacing_rate rate || fl.same s.pacing_rate (fl.hundredths 0)))
        {x = record s { pacing_rate = rate }} (refl, refl, refl, refl, refl)
        (refl, refl, refl, refl, refl)

  Same-IsRing : (s s' : State fl) → Same s s' → IsRing s → IsRing s'
  Same-IsRing s s' (_, f, i, g, j) v = record {
    bw_place = rw (f, i) v.bw_place;
    rtt_place = rw (g, j) v.rtt_place;
  }

  -- An acknowledgement never panics on a connection whose next places its filters have; it leaves such a
  -- connection, with a least time that is at most the measured one.
  pub on_packet_acked-IsRing :
      (now size rtt : ℕ) (s : State fl)
      → IsRing s
      → (s' : State fl) × (on_packet_acked fl now size rtt s ≡ ok s')
        × IsRing s'
        × (s'.min_rtt ≤ rtt)
        × (s'.min_rtt ≤ hour)
  unfolding on_packet_acked
  on_packet_acked-IsRing now size rtt s v =
      let p : State fl = record s {
        packets_acked = word (s.packets_acked + 1);
        bytes_acked = word (s.bytes_acked + size);
        inflight = s.inflight - 1;
      } in
      let (s1, e1, v1, low, high) =
        measured_lem rtt p (record { bw_place = v.bw_place; rtt_place = v.rtt_place }) in
      let (s2, e2, v2, k2) = rated_lem size rtt s1 v1 in
      let (s3, e3, k3) = advance_startup-Same now s2.mode s2 refl in
      let k4 = update-Same s3 in
      (
        update_cwnd fl (update_pacing_rate fl s3),
        rw (e1, e2, e3) refl,
        Same-IsRing s3 _ k4 (Same-IsRing s2 s3 k3 v2),
        omega (arith, low, k2, k3.0, k4.0),
        omega (arith, high, k2, k3.0, k4.0),
      )
