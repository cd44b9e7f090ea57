-- ===== src/Dccp/Options.antt =====
-- The option builders of app/transport/dccp/options.go. A byte argument is a number below 256;
-- `now` is the clock in microseconds, which the source reads itself.
pub mod Laws
use oiwest_core.Common.{
  ℕ, ◌+◌, ◌%◌, ◌^◌, List, [], ◌∷◌, ◌++◌, leb, if◌then◌else◌, length, take, replicate, be16, be32,
  be64,
}
use oiwest_core.Dccp.Types.{Opt}
use oiwest_core.Dccp.OptionType

-- The five builders that differ in the type alone: the length field counts one byte less than
-- the type, the length, the feature, the length of the value and the value.
abbrev pub with_value : ℕ → ℕ → List ℕ → Opt
with_value kind feature value = record {
  option_type = kind;
  len = (3 + length value) % 256;
  body = feature ∷ length value % 256 ∷ value;
}

-- BuildFeatureOption.
unfoldable pub build_feature : ℕ → List ℕ → Opt
build_feature feature value = with_value OptionType.feature feature value

-- BuildChangeLOption.
unfoldable pub build_change_l : ℕ → List ℕ → Opt
build_change_l feature value = with_value OptionType.change_l feature value

-- BuildConfirmLOption.
unfoldable pub build_confirm_l : ℕ → List ℕ → Opt
build_confirm_l feature value = with_value OptionType.confirm_l feature value

-- BuildChangeROption.
unfoldable pub build_change_r : ℕ → List ℕ → Opt
build_change_r feature value = with_value OptionType.change_r feature value

-- BuildConfirmROption.
unfoldable pub build_confirm_r : ℕ → List ℕ → Opt
build_confirm_r feature value = with_value OptionType.confirm_r feature value

-- BuildFeatureAckOption.
unfoldable pub build_feature_ack : ℕ → Opt
build_feature_ack feature = record {
  option_type = OptionType.feature_ack;
  len = 3;
  body = feature ∷ 0 ∷ [];
}

-- BuildTimestampOption.
unfoldable pub build_timestamp : ℕ → Opt
build_timestamp now = record { option_type = OptionType.timestamp; len = 10; body = be64 now }

-- BuildTimestampEchoOption.
unfoldable pub build_timestamp_echo : List ℕ → Opt
build_timestamp_echo ts = record {
  option_type = OptionType.timestamp_echo;
  len = 10;
  body = if leb 8 (length ts) then take 8 ts else replicate 8 0;
}

-- BuildAckVectorOption.
unfoldable pub build_ack_vector : List ℕ → Opt
build_ack_vector acks = record {
  option_type = OptionType.ack_vector;
  len = (2 + length acks) % 256;
  body = acks;
}

-- BuildDataChecksumOption.
unfoldable pub build_data_checksum : Opt
build_data_checksum = record { option_type = OptionType.data_checksum; len = 2; body = [] }

-- BuildElapsedTimeOption.
unfoldable pub build_elapsed_time : Opt
build_elapsed_time = record { option_type = OptionType.elapsed_time; len = 6; body = replicate 4 0 }

-- BuildSlowReceiverOption.
unfoldable pub build_slow_receiver : ℕ → Opt
build_slow_receiver rate = record {
  option_type = OptionType.slow_receiver;
  len = 6;
  body = be32 rate;
}

-- BuildDataDroppedOption: seven bytes, of which the last four stay zero.
unfoldable pub build_data_dropped : ℕ → ℕ → Opt
build_data_dropped code block = record {
  option_type = OptionType.data_dropped;
  len = 9;
  body = code ∷ (be16 block ++ replicate 4 0);
}

-- BuildMinCSUMOption.
unfoldable pub build_min_csum : Opt
build_min_csum = record { option_type = OptionType.min_csum; len = 2; body = [] }

-- BuildInitCookieOption: two zero bytes, the cookie and the service code.
unfoldable pub build_init_cookie : List ℕ → List ℕ → Opt
build_init_cookie cookie service = record {
  option_type = OptionType.init_cookie;
  len = (2 + (2 + length cookie + 4)) % 256;
  body = 0 ∷ 0 ∷ (cookie ++ service);
}
