-- ===== src/Bbr/State.antt =====
-- The state of app/transport/bbr/bbr.go, and its constructors.
use oiwest_core.Common.{ℕ, Bool, false, List, replicate}
use oiwest_core.Dccp.Congestion.{hour}

-- float64: `hundredths n` is the number n / 100, and `seconds` is Duration.Seconds.
pub record Floats : Type 1 where
  pub F : Type 0
  pub hundredths : ℕ → F
  pub of_count : ℕ → F
  pub seconds : ℕ → F
  pub plus : F → F → F
  pub times : F → F → F
  pub over : F → F → F
  pub smaller : F → F → F
  pub below : F → F → Bool
  pub at_most : F → F → Bool
  pub same : F → F → Bool

-- BBRAlgorithm and BBRMode.
pub data Algorithm : Type 0 where
  original v2 v3 plus_ ecn adaptive probe_rtt_ : Algorithm

pub data Mode : Type 0 where
  startup drain probe_bw probe_rtt : Mode

-- BBRConfig, without the fields that no method reads.
pub record Config (fl : Floats) : Type 0 where
  pub algorithm : Algorithm
  pub mss : ℕ
  pub init_cwnd : fl.F
  pub bw_filter_len : ℕ
  pub rtt_filter_len : ℕ
  pub ecn_threshold : fl.F
  pub startup_pacing_gain : fl.F
  pub startup_cwnd_gain : fl.F
  pub drain_pacing_gain : fl.F
  pub alpha : fl.F
  pub beta : fl.F

-- BBRState, without the fields that no method uses, and the flags that no method reads.
pub record State (fl : Floats) : Type 0 where
  pub algorithm : Algorithm
  pub mode : Mode
  pub bw : fl.F
  pub bw_max : fl.F
  pub bw_latest : fl.F
  pub bw_filter : List fl.F
  pub bw_filter_idx : ℕ
  pub min_rtt : ℕ
  pub min_rtt_filter : List ℕ
  pub min_rtt_idx : ℕ
  pub latest_rtt : ℕ
  pub cwnd : fl.F
  pub cwnd_gain : fl.F
  pub pacing_gain : fl.F
  pub pacing_rate : fl.F
  pub lost_bytes : ℕ
  pub inflight : ℕ
  pub packets_sent : ℕ
  pub packets_lost : ℕ
  pub packets_acked : ℕ
  pub bytes_sent : ℕ
  pub bytes_acked : ℕ
  pub ecn_count : ℕ
  pub ecn_threshold : fl.F
  pub probe_rtt_since : ℕ
  pub probe_rtt_done_at : ℕ
  pub full_bw : Bool
  pub full_bw_count : ℕ
  pub cycle_count : ℕ
  pub mss : ℕ
  pub init_cwnd : fl.F
  pub startup_pacing_gain : fl.F
  pub startup_cwnd_gain : fl.F
  pub drain_pacing_gain : fl.F

module _ (fl : Floats) where
  -- DefaultBBRConfig.
  abbrev pub default_config : Algorithm → Config fl
  default_config algorithm = record {
    algorithm = algorithm;
    mss = 1460;
    init_cwnd = fl.hundredths 1000;
    bw_filter_len = 10;
    rtt_filter_len = 10;
    ecn_threshold = fl.hundredths 8;
    startup_pacing_gain = fl.hundredths 277;
    startup_cwnd_gain = fl.hundredths 200;
    drain_pacing_gain = fl.hundredths 50;
    alpha = fl.hundredths 85;
    beta = fl.hundredths 70;
  }

  -- newBBRState.
  unfoldable pub new_state : Config fl → State fl
  new_state config = record {
    algorithm = config.algorithm;
    mode = startup;
    bw = fl.hundredths 0;
    bw_max = fl.hundredths 0;
    bw_latest = fl.hundredths 0;
    bw_filter = replicate config.bw_filter_len (fl.hundredths 0);
    bw_filter_idx = 0;
    min_rtt = hour;
    min_rtt_filter = replicate config.rtt_filter_len hour;
    min_rtt_idx = 0;
    latest_rtt = 0;
    cwnd = config.init_cwnd;
    cwnd_gain = config.startup_cwnd_gain;
    pacing_gain = config.startup_pacing_gain;
    pacing_rate = fl.times (fl.hundredths 1000) (fl.of_count config.mss);
    lost_bytes = 0;
    inflight = 0;
    packets_sent = 0;
    packets_lost = 0;
    packets_acked = 0;
    bytes_sent = 0;
    bytes_acked = 0;
    ecn_count = 0;
    ecn_threshold = config.ecn_threshold;
    probe_rtt_since = 0;
    probe_rtt_done_at = 0;
    full_bw = false;
    full_bw_count = 0;
    cycle_count = 0;
    mss = config.mss;
    init_cwnd = config.init_cwnd;
    startup_pacing_gain = config.startup_pacing_gain;
    startup_cwnd_gain = config.startup_cwnd_gain;
    drain_pacing_gain = config.drain_pacing_gain;
  }

  -- newBBR with NewBBR, NewBBRv2 and NewBBRv3; `now` is when it is called.
  unfoldable pub new_bbr : ℕ → Algorithm → Config fl → State fl
  unfolding new_state
  new_bbr now original config = new_state config
  new_bbr now v2 config = new_state config
  new_bbr now v3 config = record (new_state config) { ecn_threshold = fl.hundredths 5 }
  new_bbr now plus_ config = record (new_state config) { startup_pacing_gain = fl.hundredths 289 }
  new_bbr now ecn config = new_state config
  new_bbr now adaptive config = record (new_state config) { cwnd_gain = fl.hundredths 300 }
  new_bbr now probe_rtt_ config = record (new_state config) { probe_rtt_since = now }
