-- ===== src/Dccp/Congestion.antt =====
-- CCID 2 of app/transport/dccp/congestion.go. A float64 and its operations are a parameter. Durations are
-- words of 64 bits, in two's complement; the counts of packets are numbers.
pub mod Timeout
pub mod Ccid4
use oiwest_core.Common.{
  ℕ, zero, suc, ◌+◌, ◌*◌, ◌-◌, ◌/◌, ◌%◌, ◌^◌, ◌==◌, Bool, true, false, ltb, if◌then◌else◌,
}

-- float64.
pub record Floats : Type 1 where
  pub F : Type 0
  pub zero_float : F
  pub one : F
  pub two : F
  pub max_float : F
  pub half : F
  pub seven_tenths : F
  pub three_halves : F
  pub ten : F
  pub thousand : F
  pub plus : F → F → F
  pub over : F → F → F
  pub larger : F → F → F
  pub times : F → F → F
  pub below : F → F → Bool
  pub of_count : ℕ → F
  pub to_int : F → ℕ

abbrev pub word : ℕ → ℕ
word n = n % 2 ^ 64

abbrev pub millisecond : ℕ
millisecond = 10 ^ 6

abbrev pub second : ℕ
second = 10 ^ 9

abbrev pub hour : ℕ
hour = 3600 * second

-- The order and the quotient of signed words.
unfoldable pub less : ℕ → ℕ → Bool
less a b = ltb (word (a + 2 ^ 63)) (word (b + 2 ^ 63))

unfoldable pub negated : ℕ → ℕ
negated a = word (2 ^ 64 - a)

unfoldable pub quotient : ℕ → ℕ → ℕ
unfolding negated
quotient a n = if ltb a (2 ^ 63) then a / n else negated (negated a / n)

-- The loop of OnPacketLost and OnRTO, with the rounds that are left of six and the backoff.
unfoldable pub double_loop : ℕ → ℕ → ℕ → ℕ
double_loop zero backoff rto = rto
double_loop (suc left) zero rto = rto
double_loop (suc left) (suc backoff) rto = double_loop left backoff (word (rto * 2))

-- The smoothed time and its variation.
unfoldable pub smoothed : ℕ → ℕ → ℕ
unfolding quotient
smoothed srtt rtt = if srtt == 0 then rtt else quotient (word (7 * srtt + rtt)) 8

unfoldable pub varied : ℕ → ℕ → ℕ → ℕ
unfolding quotient less negated
varied srtt rttvar rtt =
    if srtt == 0
    then quotient rtt 2
    else let delta = word (rtt + (2 ^ 64 - srtt)) in
      let size = if less delta 0 then negated delta else delta in
      quotient (word (3 * rttvar + size)) 4

-- ccid2CC.
pub record Ccid2 (fl : Floats) : Type 0 where
  pub cwnd : fl.F
  pub ssthresh : fl.F
  pub loss_window : fl.F
  pub min_rtt : ℕ
  pub max_rtt : ℕ
  pub srtt : ℕ
  pub rttvar : ℕ
  pub rto : ℕ
  pub in_flight : ℕ
  pub pipe : ℕ
  pub backoff : ℕ

module _ (fl : Floats) where
  unfoldable pub new_ccid2 : Ccid2 fl
  new_ccid2 = record {
    cwnd = fl.two;
    ssthresh = fl.max_float;
    loss_window = fl.zero_float;
    min_rtt = hour;
    max_rtt = 0;
    srtt = 0;
    rttvar = 0;
    rto = second;
    in_flight = 0;
    pipe = 0;
    backoff = 0;
  }

  unfoldable pub on_packet_sent : Ccid2 fl → Ccid2 fl
  on_packet_sent c = record c { in_flight = c.in_flight + 1; pipe = c.pipe + 1 }

  unfoldable pub on_packet_lost : Ccid2 fl → Ccid2 fl
  unfolding double_loop
  on_packet_lost c = record c {
    ssthresh = fl.larger fl.two (fl.over c.cwnd fl.two);
    loss_window = c.cwnd;
    cwnd = fl.larger fl.one (fl.over c.cwnd fl.two);
    backoff = c.backoff + 1;
    rto = double_loop 6 (c.backoff + 1) c.rto;
    pipe = c.pipe - 1;
  }

  unfoldable pub on_packet_acked : ℕ → Ccid2 fl → Ccid2 fl
  unfolding smoothed varied less
  on_packet_acked rtt c =
      let srtt = smoothed c.srtt rtt in
      let rttvar = varied c.srtt c.rttvar rtt in
      let rto = word (srtt + 4 * rttvar) in
      record c {
        pipe = c.pipe - 1;
        min_rtt = if less rtt c.min_rtt then rtt else c.min_rtt;
        max_rtt = if less c.max_rtt rtt then rtt else c.max_rtt;
        srtt = srtt;
        rttvar = rttvar;
        rto = if less rto (200 * millisecond) then 200 * millisecond else rto;
        cwnd =
            if fl.below c.cwnd c.ssthresh
            then fl.plus c.cwnd fl.one
            else fl.plus c.cwnd (fl.over fl.one c.cwnd);
      }

  unfoldable pub on_rto : Ccid2 fl → ℕ
  unfolding double_loop
  on_rto c = double_loop 6 c.backoff c.rto

  unfoldable pub can_send : Ccid2 fl → Bool
  can_send c = fl.below (fl.of_count c.pipe) c.cwnd

  unfoldable pub reset : Ccid2 fl → Ccid2 fl
  reset c = record c {
    cwnd = fl.two;
    ssthresh = fl.max_float;
    in_flight = 0;
    pipe = 0;
    backoff = 0;
    rto = second;
  }
