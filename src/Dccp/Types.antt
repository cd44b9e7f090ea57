-- ===== src/Dccp/Types.antt =====
-- The constants and the header of app/transport/dccp/dccp.go. A byte, a packet type and an option
-- type are numbers below 256: a decoded packet may carry any of the sixteen type codes.
use oiwest_core.Common.{ℕ, List, [], ◌∷◌}

-- HeaderSize.
abbrev pub header_size : ℕ
header_size = 12

-- DCCPHeader.
pub record Header : Type 0 where
  pub source_port : ℕ
  pub dest_port : ℕ
  pub data_offset : ℕ
  pub cc_val : ℕ
  pub checksum_coverage : ℕ
  pub checksum : ℕ
  pub res_type : ℕ
  pub packet_type : ℕ
  pub extended : ℕ
  pub sequence_number : ℕ

-- A header built by a composite literal: the fields that it does not name are zero.
abbrev pub zero_header : Header
zero_header = record {
  source_port = 0;
  dest_port = 0;
  data_offset = 0;
  cc_val = 0;
  checksum_coverage = 0;
  checksum = 0;
  res_type = 0;
  packet_type = 0;
  extended = 0;
  sequence_number = 0;
}

-- DCCPOption of packet.go.
pub record Opt : Type 0 where
  pub option_type : ℕ
  pub len : ℕ
  pub body : List ℕ

-- The errors of packet.go that it returns, with those of io.ReadFull.
pub data Error : Type 0 where
  packet_too_small invalid_option eof unexpected_eof : Error

-- SetExtendedSequence.
abbrev pub set_extended_sequence : ℕ → Header → Header
set_extended_sequence seq hdr = record hdr { extended = 1; sequence_number = seq }

-- GetSequenceNumber.
abbrev pub get_sequence_number : Header → ℕ
get_sequence_number hdr = hdr.sequence_number

-- The service codes: "V2RY", "XRAY" and "SBOX".
abbrev pub service_code_v2ray : List ℕ
service_code_v2ray = 86 ∷ 50 ∷ 82 ∷ 89 ∷ []

abbrev pub service_code_xray : List ℕ
service_code_xray = 88 ∷ 82 ∷ 65 ∷ 89 ∷ []

abbrev pub service_code_sing_box : List ℕ
service_code_sing_box = 83 ∷ 66 ∷ 79 ∷ 88 ∷ []
