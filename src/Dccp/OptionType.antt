-- ===== src/Dccp/OptionType.antt =====
-- The option types of app/transport/dccp/dccp.go.
use oiwest_core.Common.{ℕ}

abbrev pub padding : ℕ
padding = 0

abbrev pub slow_receiver : ℕ
slow_receiver = 2

abbrev pub change_l : ℕ
change_l = 32

abbrev pub confirm_l : ℕ
confirm_l = 33

abbrev pub change_r : ℕ
change_r = 34

abbrev pub confirm_r : ℕ
confirm_r = 35

abbrev pub ack_vector : ℕ
ack_vector = 37

abbrev pub data_dropped : ℕ
data_dropped = 39

abbrev pub timestamp : ℕ
timestamp = 40

abbrev pub timestamp_echo : ℕ
timestamp_echo = 41

abbrev pub elapsed_time : ℕ
elapsed_time = 42

abbrev pub data_checksum : ℕ
data_checksum = 43

abbrev pub min_csum : ℕ
min_csum = 44

abbrev pub init_cookie : ℕ
init_cookie = 45

abbrev pub feature : ℕ
feature = 46

abbrev pub feature_ack : ℕ
feature_ack = 47
