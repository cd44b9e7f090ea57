-- ===== src/Dccp/Build.antt =====
-- The packet builders of app/transport/dccp/packet.go. A service code is a list of four bytes, and
-- a slice that `make` zeroed is a `replicate`.
pub mod Laws
pub mod Request
use oiwest_core.Common.{ℕ, List, [], ◌∷◌, ◌++◌, replicate, Result}
use oiwest_core.Dccp.Types.{Header, zero_header, Opt, Error}
use oiwest_core.Dccp.PacketType
use oiwest_core.Dccp.OptionType
use oiwest_core.Dccp.Packet.{encode}

-- The header that each builder starts from: extended, with its ports, type and sequence number.
abbrev pub extended_header : ℕ → ℕ → ℕ → ℕ → Header
extended_header kind src dst seq = record zero_header {
  source_port = src;
  dest_port = dst;
  packet_type = kind;
  extended = 1;
  sequence_number = seq;
}

-- The cookie option of BuildRequestPacket and BuildResponsePacket: its length byte counts four
-- bytes of data, and its data has six.
abbrev pub cookie_option : List ℕ → Opt
cookie_option code = record {
  option_type = OptionType.init_cookie;
  len = 6;
  body = (0 ∷ 0 ∷ []) ++ code;
}

abbrev pub request_options : List ℕ → List Opt
request_options code =
    cookie_option code
    ∷ record { option_type = OptionType.feature; len = 5; body = 4 ∷ 0 ∷ 0 ∷ [] }
    ∷ record { option_type = OptionType.timestamp; len = 10; body = replicate 8 0 }
    ∷ []

-- BuildRequestPacket.
pub build_request : ℕ → ℕ → List ℕ → ℕ → Result Error (List ℕ)
build_request src dst code seq =
    encode (extended_header PacketType.request src dst seq) (request_options code) []

abbrev pub response_options : List ℕ → List Opt
response_options code =
    cookie_option code
    ∷ record { option_type = OptionType.confirm_l; len = 6; body = replicate 4 0 }
    ∷ record { option_type = OptionType.timestamp_echo; len = 10; body = replicate 8 0 }
    ∷ []

-- BuildResponsePacket; the sequence number of the request is not used.
abbrev pub build_response : ℕ → ℕ → List ℕ → ℕ → ℕ → Result Error (List ℕ)
build_response src dst code seq init_seq =
    encode (extended_header PacketType.response src dst seq) (response_options code) []

-- BuildDataPacket.
pub build_data : ℕ → ℕ → ℕ → List ℕ → Result Error (List ℕ)
build_data src dst seq payload =
    encode (extended_header PacketType.data_only src dst seq) [] payload

-- BuildAckPacket.
pub build_ack : ℕ → ℕ → ℕ → Result Error (List ℕ)
build_ack src dst seq = encode (extended_header PacketType.ack src dst seq) [] []

-- BuildClosePacket.
pub build_close : ℕ → ℕ → ℕ → Result Error (List ℕ)
build_close src dst seq = encode (extended_header PacketType.close src dst seq) [] []

-- BuildResetPacket.
pub build_reset : ℕ → ℕ → ℕ → ℕ → Result Error (List ℕ)
build_reset src dst seq reason =
    encode (extended_header PacketType.reset src dst seq) [] (reason ∷ [])
