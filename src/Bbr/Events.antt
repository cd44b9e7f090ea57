-- ===== src/Bbr/Events.antt =====
-- The methods of BBR in app/transport/bbr/bbr.go.
use oiwest_core.Common.{ℕ, ◌+◌, ◌*◌, ◌-◌, Bool, ◌&&◌, ltb, if◌then◌else◌, Result, ok, ◌>>=◌}
use oiwest_core.Dccp.Congestion.{word, second}
use oiwest_core.Bbr.State.{Floats, Algorithm, Mode, Config, State, v2, v3, startup, probe_rtt}
use oiwest_core.Bbr.Update.{
  update_bw_filter, update_min_rtt_filter, update_pacing_rate, at_least_initial, update_cwnd,
  advance_mode,
}

module _ (fl : Floats) where
  -- OnPacketSent; the time of the first packet is read by no method.
  unfoldable pub on_packet_sent : ℕ → State fl → State fl
  on_packet_sent size s = record s {
    packets_sent = word (s.packets_sent + 1);
    inflight = word (s.inflight + 1);
    bytes_sent = word (s.bytes_sent + size);
  }

  -- The factor of a loss.
  unfoldable pub loss_factor : Config fl → Bool → State fl → Algorithm → fl.F
  loss_factor config ecn_ s v2 =
      if ecn_
        && fl.below (fl.times s.ecn_threshold (fl.of_count s.packets_sent))
            (fl.of_count s.ecn_count)
      then config.alpha
      else config.beta
  loss_factor config ecn_ s v3 =
      if ecn_
        && fl.below (fl.times s.ecn_threshold (fl.of_count s.packets_sent))
            (fl.of_count s.ecn_count)
      then config.alpha
      else config.beta
  loss_factor config ecn_ s _ = fl.hundredths 80

  unfoldable pub counted_loss : Bool → State fl → State fl
  counted_loss ecn_ s = record s {
    packets_lost = word (s.packets_lost + 1);
    lost_bytes = word (s.lost_bytes + s.mss);
    inflight = s.inflight - 1;
    ecn_count = if ecn_ then word (s.ecn_count + 1) else s.ecn_count;
  }

  unfoldable pub on_packet_lost : Config fl → Bool → State fl → State fl
  unfolding loss_factor at_least_initial counted_loss
  on_packet_lost config ecn_ s =
      let s' = counted_loss ecn_ s in
      record s' {
        cwnd =
            at_least_initial fl s.init_cwnd
              (fl.times s.cwnd (loss_factor config ecn_ s' s.algorithm));
      }

  -- What OnPacketAcked and OnRTTUpdate do with a measured time.
  unfoldable pub measured : ℕ → State fl → Result (Unit {0}) (State fl)
  unfolding update_min_rtt_filter
  measured rtt s = update_min_rtt_filter fl (record s {
    latest_rtt = rtt;
    min_rtt = if ltb rtt s.min_rtt && ltb 0 rtt then rtt else s.min_rtt;
  })

  -- What OnPacketAcked does with the rate.
  unfoldable pub rated : ℕ → ℕ → State fl → Result (Unit {0}) (State fl)
  unfolding update_bw_filter
  rated size rtt s =
      let rate = fl.over (fl.of_count size) (fl.seconds rtt) in
      if ltb 0 size && fl.below (fl.hundredths 0) rate
      then update_bw_filter fl (record s { bw_latest = rate })
      else ok s

  -- Its call of advanceMode.
  unfoldable pub advance_startup : ℕ → Mode → State fl → Result (Unit {0}) (State fl)
  unfolding advance_mode
  advance_startup now startup s = advance_mode fl now s
  advance_startup now _ s = ok s

  unfoldable pub on_packet_acked : ℕ → ℕ → ℕ → State fl → Result (Unit {0}) (State fl)
  unfolding measured rated advance_startup update_pacing_rate update_cwnd
  on_packet_acked now size rtt s = do
    s1 ← measured rtt (record s {
      packets_acked = word (s.packets_acked + 1);
      bytes_acked = word (s.bytes_acked + size);
      inflight = s.inflight - 1;
    })
    s2 ← rated size rtt s1
    s3 ← advance_startup now s2.mode s2
    ok (update_cwnd fl (update_pacing_rate fl s3))

  unfoldable pub on_rtt_update : ℕ → ℕ → State fl → Result (Unit {0}) (State fl)
  unfolding measured
  on_rtt_update now rtt s = do
    s' ← measured rtt s
    ok (
        if ltb 0 s'.min_rtt && ltb (10 * second) (now - s'.probe_rtt_done_at)
        then record s' { mode = probe_rtt; probe_rtt_since = now }
        else s')

  unfoldable pub can_send : State fl → Bool
  can_send s = fl.below (fl.of_count s.inflight) s.cwnd

  unfoldable pub reset : State fl → State fl
  reset s = record s {
    cwnd = s.init_cwnd;
    bw = fl.hundredths 0;
    bw_max = fl.hundredths 0;
    mode = startup;
    pacing_gain = s.startup_pacing_gain;
    cwnd_gain = s.startup_cwnd_gain;
    packets_sent = 0;
    packets_lost = 0;
    packets_acked = 0;
    inflight = 0;
    bytes_sent = 0;
    bytes_acked = 0;
  }
