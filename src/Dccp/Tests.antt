-- ===== src/Dccp/Tests.antt =====
-- The theorems of the DCCP transport on concrete packets.
use oiwest_core.Common.{
  err, length, ℕ, ◌+◌, ◌%◌, ◌/◌, ◌^◌, ◌≡◌, ◌↔◌, refl, ◌*◌, ◌<◌, ◌≤◌, max, ltb, false, List, [], ◌∷◌,
  ◌++◌, replicate, ok, panic, arith,
}
use oiwest_core.Dccp.Types.{packet_too_small, Header, zero_header, Opt}
use oiwest_core.Dccp.Transport.{Transport, new_transport, max_payload, packet_error, write, read}
use oiwest_core.Dccp.Transport.Laws.{write-read}
use oiwest_core.Dccp.Congestion.{Floats, Ccid2, new_ccid2, on_rto}
use oiwest_core.Dccp.Congestion.Timeout.{lose, lose-on_rto}
use oiwest_core.Dccp.Packet.{option_size, fold_loop, encode, parse_options, decode}
use oiwest_core.Dccp.Packet.Fold.{residue, fold_loop-residue}
use oiwest_core.Dccp.Packet.Total.{EndsBy, PanicsOn, decode_panics, parse_options-EndsBy}
use oiwest_core.Dccp.Packet.RoundTrip.{received, decode-encode}
use oiwest_core.Dccp.Build.{build_data}
use oiwest_core.Dccp.Build.Laws.{build_data_short}
use oiwest_core.Dccp.Build.Request.{build_request_lem}
use oiwest_core.Dccp.Handshake.{World, new_conn_state}

abbrev hello : Header
hello = record zero_header {
  source_port = 80;
  dest_port = 443;
  cc_val = 3;
  packet_type = 4;
  extended = 1;
  sequence_number = 81985529216486895;
}

abbrev two_options : List Opt
two_options =
    record { option_type = 44; len = 2; body = [] }
    ∷ record { option_type = 40; len = 4; body = 1 ∷ 2 ∷ [] }
    ∷ []

abbrev four : List ℕ
four = 7 ∷ 8 ∷ 9 ∷ 10 ∷ []

abbrev nothing : List ℕ
nothing = replicate 12 0

abbrev long_option : List Opt
long_option = record { option_type = 46; len = 3; body = 1 ∷ 2 ∷ [] } ∷ []

decode-encode_example :
    (bytes : List ℕ) × (encode hello two_options four ≡ ok bytes)
    × (decode bytes ≡ ok (received hello two_options four, two_options, four))
unfolding option_size
decode-encode_example =
    decode-encode hello two_options four (omega arith) (omega arith) (omega arith)
      (λ e. omega arith)

decode_panics_example : (decode nothing ≡ panic) ↔ PanicsOn nothing
decode_panics_example = decode_panics nothing

parse_options-EndsBy_example : EndsBy 5 (parse_options (0 ∷ 40 ∷ 3 ∷ 1 ∷ 44 ∷ []))
parse_options-EndsBy_example = parse_options-EndsBy (0 ∷ 40 ∷ 3 ∷ 1 ∷ 44 ∷ [])

fold_loop-residue_example :
    (fold_loop (3 + 1) 4294967295 ≡ residue 4294967295)
    × (fold_loop (3 + 1) 4294967295 / 2 ^ 16 ≡ 0)
fold_loop-residue_example = fold_loop-residue 1 4294967295 (omega arith)

abbrev extended_bit : List ℕ
extended_bit = 0 ∷ 1 ∷ 0 ∷ 2 ∷ 48 ∷ 132 ∷ 0 ∷ 0 ∷ 0 ∷ 0 ∷ 0 ∷ 0 ∷ []

build_data_short_example : build_data 80 443 5 (1 ∷ 2 ∷ 3 ∷ []) ≡ panic
build_data_short_example = build_data_short 80 443 5 (1 ∷ 2 ∷ 3 ∷ []) (omega arith)

abbrev world : List ℕ → World
world inbox = record { cs = new_conn_state false; inbox = inbox; writes = []; sent = [] }

abbrev sent_request : List ℕ
sent_request = (build_request_lem 80 443 5 86 50 82 89 (omega arith)).0

-- Whole numbers in place of float64.
abbrev whole : Floats
whole = record {
  F = ℕ;
  zero_float = 0;
  one = 1;
  two = 2;
  max_float = 2 ^ 1024;
  half = 0;
  seven_tenths = 0;
  three_halves = 1;
  ten = 10;
  thousand = 1000;
  plus = λ a b. a + b;
  over = λ a b. a / b;
  larger = λ a b. max a b;
  times = λ a b. a * b;
  below = λ a b. ltb a b;
  of_count = λ n. n;
  to_int = λ x. x % 2 ^ 64;
}

abbrev backed_off : Ccid2 whole
backed_off = record (new_ccid2 whole) { backoff = 6 }

short_times : (backed_off.srtt < 2 ^ 54) × (backed_off.rttvar < 2 ^ 54)
unfolding new_ccid2
short_times = (omega arith, omega arith)

lose-on_rto_example : on_rto whole (lose whole 20 (new_ccid2 whole)) ≡ 0
lose-on_rto_example = lose-on_rto whole 20 (new_ccid2 whole) (omega arith)

abbrev five_bytes : List ℕ
five_bytes = 1 ∷ 2 ∷ 3 ∷ 4 ∷ 5 ∷ []

abbrev quiet : World
quiet = record { cs = new_conn_state false; inbox = []; writes = []; sent = [] }

abbrev end_a : Transport
end_a = new_transport 1500 quiet

fresh_end :
    (end_a.closed ≡ false)
    × ((end_a.world.cs.local_port < 2 ^ 16) × (end_a.world.cs.remote_port < 2 ^ 16))
    × (end_a.world.writes ≡ [])
    × (5 ≤ max_payload end_a.max_packet_size)
unfolding new_transport new_conn_state max_payload
fresh_end = (refl, (omega arith, omega arith), refl, omega arith)

write-read_example :
    (five_bytes ≡ [] → write five_bytes end_a ≡ (ok 0, end_a))
    × (0 < length five_bytes
        → length five_bytes < 4
        → (t' : Transport) × (write five_bytes end_a ≡ (panic, t')))
    × (4 ≤ length five_bytes
        → (packet : List ℕ) × (t' : Transport) × (write five_bytes end_a
            ≡ (ok (length five_bytes), t'))
          × (t'.world.sent ≡ end_a.world.sent ++ packet ∷ [])
          × ((size : ℕ) (after : List ℕ) (peer : Transport)
              → peer.closed ≡ false
              → peer.rx_len ≡ 0
              → peer.world.inbox ≡ packet ++ after
              → (peer' : Transport) × (read size peer
                  ≡ (err (packet_error packet_too_small), peer'))))
write-read_example = let (o, p, w, n) = fresh_end in write-read five_bytes end_a o p w n
