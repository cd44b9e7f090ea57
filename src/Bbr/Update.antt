-- ===== src/Bbr/Update.antt =====
-- The helpers of BBRState in app/transport/bbr/bbr.go: filters, rate, window and modes.
use oiwest_core.Common.{
  ℕ, ◌+◌, ◌*◌, ◌-◌, ◌%◌, ◌^◌, ◌==◌, true, false, ◌&&◌, ◌||◌, ltb, leb, if◌then◌else◌, List, [], ◌∷◌,
  length, set, get_or, Result, ok, ◌>>◌, in_range,
}
use oiwest_core.Dccp.Congestion.{word, millisecond, hour}
use oiwest_core.Bbr.State.{Floats, Mode, State, startup, drain, probe_bw, probe_rtt}

module _ (fl : Floats) where
  -- The greatest of a filter, from 0, and the least, from an hour.
  unfoldable pub greatest : fl.F → List fl.F → fl.F
  greatest most [] = most
  greatest most (bw ∷ filter) = greatest (if fl.below most bw then bw else most) filter

  unfoldable pub least : ℕ → List ℕ → ℕ
  least fewest [] = fewest
  least fewest (rtt ∷ filter) = least (if ltb rtt fewest then rtt else fewest) filter

  -- updateBWFilter and updateMinRTTFilter. An index out of range panics, and so does the remainder by 0.
  unfoldable pub update_bw_filter : State fl → Result (Unit {0}) (State fl)
  unfolding greatest
  update_bw_filter s = do
    in_range (ltb s.bw_filter_idx (length s.bw_filter))
    let filter = set s.bw_filter s.bw_filter_idx s.bw_latest
    ok (record s {
      bw_filter = filter;
      bw_filter_idx = (s.bw_filter_idx + 1) % length filter;
      bw_max = greatest (fl.hundredths 0) filter;
      bw = if fl.below s.bw s.bw_latest then s.bw_latest else s.bw;
    })

  unfoldable pub update_min_rtt_filter : State fl → Result (Unit {0}) (State fl)
  unfolding least
  update_min_rtt_filter s = do
    in_range (ltb s.min_rtt_idx (length s.min_rtt_filter))
    let filter = set s.min_rtt_filter s.min_rtt_idx s.latest_rtt
    ok (record s {
      min_rtt_filter = filter;
      min_rtt_idx = (s.min_rtt_idx + 1) % length filter;
      min_rtt = least hour filter;
    })

  -- bdp and bdpBytes.
  unfoldable pub bdp : State fl → fl.F
  bdp s = if s.min_rtt == 0 then s.init_cwnd else fl.times s.bw (fl.seconds s.min_rtt)

  unfoldable pub bdp_bytes : State fl → fl.F
  unfolding bdp
  bdp_bytes s = fl.times (bdp s) (fl.of_count s.mss)

  -- updatePacingRate.
  unfoldable pub update_pacing_rate : State fl → State fl
  update_pacing_rate s =
      let rate = fl.times (fl.times s.bw s.pacing_gain) (fl.of_count s.mss) in
      if fl.below (fl.hundredths 0) s.bw
        && fl.below (fl.hundredths 0) s.pacing_gain
        && (fl.below s.pacing_rate rate || fl.same s.pacing_rate (fl.hundredths 0))
      then record s { pacing_rate = rate }
      else s

  -- The two bounds of a window, and updateCWND.
  unfoldable pub at_least_initial : fl.F → fl.F → fl.F
  at_least_initial init cwnd = if fl.below cwnd init then init else cwnd

  unfoldable pub bounded : fl.F → fl.F → fl.F
  unfolding at_least_initial
  bounded init cwnd =
      let cwnd' = at_least_initial init cwnd in
      if fl.below (fl.hundredths 60000) cwnd' then fl.hundredths 60000 else cwnd'

  unfoldable pub window : Mode → State fl → fl.F
  unfolding bounded bdp_bytes
  window probe_rtt s = fl.smaller s.cwnd s.init_cwnd
  window startup s =
      bounded s.init_cwnd
        (fl.smaller (fl.plus s.cwnd s.cwnd_gain) (fl.times (bdp_bytes s) s.cwnd_gain))
  window probe_bw s = bounded s.init_cwnd (fl.times (bdp_bytes s) (fl.hundredths 200))
  window drain s = bounded s.init_cwnd (bdp_bytes s)

  unfoldable pub update_cwnd : State fl → State fl
  unfolding window
  update_cwnd s = record s { cwnd = window s.mode s }

  -- The gain at an index of the cycle.
  abbrev pub gains : List fl.F
  gains =
      fl.hundredths 125
      ∷ fl.hundredths 75
      ∷ fl.hundredths 100
      ∷ fl.hundredths 100
      ∷ fl.hundredths 100
      ∷ fl.hundredths 100
      ∷ fl.hundredths 100
      ∷ fl.hundredths 100
      ∷ []

  -- advanceMode, by the mode. An index is negative where the count is, as an int.
  unfoldable pub advance : ℕ → Mode → State fl → Result (Unit {0}) (State fl)
  unfolding bdp
  advance now startup s =
      let count = word (s.full_bw_count + 1) in
      ok (
        if fl.same s.bw_max s.bw_latest && s.full_bw
        then (if leb 3 count
            then record s {
              full_bw_count = count;
              mode = drain;
              pacing_gain = s.drain_pacing_gain;
              cwnd_gain = fl.hundredths 100;
              full_bw = false;
            }
            else record s { full_bw_count = count })
        else record s { full_bw = true; full_bw_count = 0 })
  advance now drain s = ok (
      if fl.at_most (fl.of_count s.inflight) (bdp s)
      then record s {
        mode = probe_bw;
        pacing_gain = fl.hundredths 125;
        cwnd_gain = fl.hundredths 200;
        cycle_count = 0;
      }
      else s)
  advance now probe_bw s =
      let count = word (s.cycle_count + 1) in
      let idx = count % 8 in
      do
        in_range (ltb count (2 ^ 63) || idx == 0)
        ok (record s {
          cycle_count = count;
          pacing_gain = get_or gains idx (fl.hundredths 100);
          cwnd_gain = if idx == 0 then fl.hundredths 200 else fl.hundredths 100;
        })
  advance now probe_rtt s = ok (
      if ltb (200 * millisecond) (now - s.probe_rtt_done_at)
      then record s {
        mode = probe_bw;
        pacing_gain = fl.hundredths 125;
        cwnd_gain = fl.hundredths 200;
      }
      else s)

  unfoldable pub advance_mode : ℕ → State fl → Result (Unit {0}) (State fl)
  unfolding advance
  advance_mode now s = advance now s.mode s
