-- ===== src/Bbr/Tests.antt =====
-- The theorems of the congestion control with hundredths in place of float64.
use oiwest_core.Common.{
  ℕ, ◌+◌, ◌*◌, ◌/◌, ◌≤◌, ◌≡◌, ◌≢◌, refl, true, ltb, leb, ◌==◌, if◌then◌else◌, ok, arith,
}
use oiwest_core.Dccp.Congestion.{hour}
use oiwest_core.Bbr.State.{Floats, original, probe_bw, probe_rtt, State, default_config, new_state}
use oiwest_core.Bbr.Events.{on_packet_sent, on_packet_lost, on_packet_acked}
use oiwest_core.Bbr.Modes.{Reach, here, later, sends, loses, Reach-mode}
use oiwest_core.Bbr.Window.{IsLawful, IsBounded, Reach-IsBounded}
use oiwest_core.Bbr.Filters.{IsRing, new_state-IsRing, on_packet_acked-IsRing}

abbrev exact : Floats
exact = record {
  F = ℕ;
  hundredths = λ n. n;
  of_count = λ n. n * 100;
  seconds = λ n. n / 10000000;
  plus = λ a b. a + b;
  times = λ a b. a * b / 100;
  over = λ a b. a * 100 / b;
  smaller = λ a b. if ltb a b then a else b;
  below = ltb;
  at_most = leb;
  same = λ a b. a == b;
}

abbrev fresh : State exact
fresh = new_state exact (default_config exact original)

abbrev sent : State exact
sent = on_packet_sent exact 1460 fresh

run :
    Reach exact
      (default_config exact original)
      fresh
      (on_packet_lost exact (default_config exact original) true sent)
run = later (later here (sends 1460)) (loses true)

fresh-mode : fresh.mode ≢ probe_bw
unfolding new_state
fresh-mode e = cc e

Reach-mode_example :
    ((on_packet_lost exact (default_config exact original) true sent).mode ≢ probe_bw)
    × (fresh.mode ≡ probe_rtt
        → (on_packet_lost exact (default_config exact original) true sent).mode ≡ probe_rtt)
Reach-mode_example = Reach-mode exact fresh-mode run

exact-IsLawful : IsLawful exact (default_config exact original)
exact-IsLawful = record {
  irrefl = λ x. ground arith;
  one_of = λ x y. ground arith;
  by_alpha = λ x h. ground arith;
  by_beta = λ x h. ground arith;
  by_eighty = λ x h. ground arith;
}

fresh-IsBounded : IsBounded exact fresh
unfolding new_state
fresh-IsBounded = (refl, (refl, refl))

Reach-IsBounded_example :
    IsBounded exact (on_packet_lost exact (default_config exact original) true sent)
Reach-IsBounded_example =
    Reach-IsBounded exact (default_config exact original) exact-IsLawful fresh-IsBounded run

fresh-IsRing : IsRing exact fresh
fresh-IsRing = new_state-IsRing exact (default_config exact original) (omega arith) (omega arith)

on_packet_acked-IsRing_example :
    (s' : State exact) × (on_packet_acked exact 7 1460 5000 fresh ≡ ok s')
    × IsRing exact s'
    × (s'.min_rtt ≤ 5000)
    × (s'.min_rtt ≤ hour)
on_packet_acked-IsRing_example = on_packet_acked-IsRing exact 7 1460 5000 fresh fresh-IsRing
