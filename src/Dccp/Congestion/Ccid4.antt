-- ===== src/Dccp/Congestion/Ccid4.antt =====
-- CCID 4 of app/transport/dccp/congestion.go. The numbers of packets are words of 64 bits too, since
-- OnPacketLost can make them negative.
pub mod Flight
use oiwest_core.Common.{ℕ, ◌+◌, ◌*◌, ◌-◌, ◌^◌, ◌==◌, Bool, true, false, if◌then◌else◌}
use oiwest_core.Dccp.Congestion.{
  Floats, word, millisecond, second, hour, less, quotient, double_loop, smoothed, varied,
}

-- ccid4CC.
pub record Ccid4 (fl : Floats) : Type 0 where
  pub cwnd : fl.F
  pub ssthresh : fl.F
  pub min_rtt : ℕ
  pub max_rtt : ℕ
  pub rtt : ℕ
  pub rtt_var : ℕ
  pub rto : ℕ
  pub in_flight : ℕ
  pub max_in_flight : ℕ
  pub backoff : ℕ

abbrev pub one_less : ℕ → ℕ
one_less n = word (n + (2 ^ 64 - 1))

module _ (fl : Floats) where
  unfoldable pub new_ccid4 : Ccid4 fl
  new_ccid4 = record {
    cwnd = fl.ten;
    ssthresh = fl.max_float;
    min_rtt = hour;
    max_rtt = 0;
    rtt = 0;
    rtt_var = 0;
    rto = second;
    in_flight = 0;
    max_in_flight = 10;
    backoff = 0;
  }

  unfoldable pub on_packet_sent : Ccid4 fl → Ccid4 fl
  on_packet_sent c = record c { in_flight = word (c.in_flight + 1) }

  unfoldable pub on_packet_lost : Ccid4 fl → Ccid4 fl
  on_packet_lost c =
      let cwnd = fl.larger fl.two (fl.times c.cwnd fl.seven_tenths) in
      record c {
        cwnd = cwnd;
        max_in_flight = fl.to_int cwnd;
        backoff = c.backoff + 1;
        in_flight = one_less c.in_flight;
      }

  -- The window after an acknowledgement, at most 1000.
  unfoldable pub grown : fl.F → fl.F → fl.F
  grown cwnd ssthresh =
      let wider =
        if fl.below cwnd ssthresh then fl.times cwnd fl.three_halves else fl.plus cwnd fl.half in
      if fl.below fl.thousand wider then fl.thousand else wider

  unfoldable pub on_packet_acked : ℕ → Ccid4 fl → Ccid4 fl
  unfolding grown smoothed varied less quotient
  on_packet_acked measured c =
      let left = one_less c.in_flight in
      let rtt = smoothed c.rtt measured in
      let rtt_var = varied c.rtt c.rtt_var measured in
      let cwnd = grown c.cwnd c.ssthresh in
      record c {
        in_flight = if less left 0 then 0 else left;
        min_rtt = if less measured c.min_rtt then measured else c.min_rtt;
        max_rtt = if less c.max_rtt measured then measured else c.max_rtt;
        rtt = rtt;
        rtt_var = rtt_var;
        cwnd = cwnd;
        max_in_flight = fl.to_int cwnd;
        rto = word (quotient rtt 2 + 4 * rtt_var);
        backoff = 0;
      }

  unfoldable pub on_rto : Ccid4 fl → ℕ
  unfolding double_loop
  on_rto c = double_loop 6 c.backoff c.rto

  unfoldable pub can_send : Ccid4 fl → Bool
  unfolding less
  can_send c = less c.in_flight c.max_in_flight

  unfoldable pub reset : Ccid4 fl → Ccid4 fl
  reset c = record c {
    cwnd = fl.ten;
    ssthresh = fl.max_float;
    in_flight = 0;
    max_in_flight = 10;
    backoff = 0;
    rto = second;
  }
