-- ===== src/Dccp/PacketType.antt =====
-- The packet types of app/transport/dccp/dccp.go.
use oiwest_core.Common.{ℕ}

abbrev pub request : ℕ
request = 0

abbrev pub response : ℕ
response = 1

abbrev pub data_only : ℕ
data_only = 2

abbrev pub ack : ℕ
ack = 3

abbrev pub data_ack : ℕ
data_ack = 4

abbrev pub close_req : ℕ
close_req = 5

abbrev pub close : ℕ
close = 6

abbrev pub reset : ℕ
reset = 7

abbrev pub sync : ℕ
sync = 8

abbrev pub sync_ack : ℕ
sync_ack = 9
