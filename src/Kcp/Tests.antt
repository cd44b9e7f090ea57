-- ===== src/Kcp/Tests.antt =====
-- The theorems of the session on concrete sessions and datagrams.
use oiwest_core.Common.{
  ◌≤◌, ◌≢◌, ℕ, ◌+◌, ◌-◌, ◌<◌, ◌≡◌, ◌⊎◌, refl, true, List, [], ◌∷◌, ◌++◌, drop, take, length,
  le32_at, replicate, ok, err, panic, arith,
}
use oiwest_core.Kcp.{
  Segment, State, zero_segment, cmd_push, overhead, no_data, new_state, recv, send, accept,
  decode_segment, input,
}
use oiwest_core.Kcp.Segments.{IsSound, datagram, accept_all, input-datagram, input_overrun}
use oiwest_core.Kcp.Queues.{bodies, AllFit, Fitting, send_lem, recv_lem}
use oiwest_core.Kcp.Valid.{IsValid}
use oiwest_core.Kcp.Flush.{Keeps}
use oiwest_core.Kcp.Life.{here, sent, new_state-IsValid, Reach-IsValid}

abbrev fresh : State
fresh = new_state 5

abbrev two_bytes : Segment
two_bytes = record zero_segment { conv = 5; cmd = cmd_push; sn = 3; len = 2; body = 7 ∷ 8 ∷ [] }

two_bytes-IsSound : IsSound two_bytes
two_bytes-IsSound = record {
  conv = omega arith;
  wnd = omega arith;
  ts = omega arith;
  sn = omega arith;
  una = omega arith;
  small = omega arith;
  counted = refl;
  fresh = refl;
}

input-datagram_example :
    input (datagram (two_bytes ∷ two_bytes ∷ [])) [] fresh
    ≡ ok (accept_all (two_bytes ∷ two_bytes ∷ []) fresh, true)
input-datagram_example =
    input-datagram two_bytes (two_bytes ∷ []) [] fresh (two_bytes-IsSound, (two_bytes-IsSound, tt))

-- A header that announces one byte more than the datagram has.
abbrev too_long : List ℕ
too_long = replicate 20 0 ++ 1 ∷ 0 ∷ 0 ∷ 0 ∷ []

input_overrun_example :
    ((length too_long + 0 < overhead + le32_at too_long 20) × (input too_long [] fresh ≡ panic))
    ⊎ ((overhead + le32_at too_long 20 ≤ length too_long + 0)
        × (input too_long [] fresh
            ≡ ok (
              accept
                  (decode_segment too_long (
                    drop overhead too_long
                    ++ take (overhead + le32_at too_long 20 - length too_long) []))
                  fresh,
              true,
            )))
input_overrun_example = input_overrun too_long [] fresh (omega arith) (omega arith)

send_lem_example :
    (q : List Segment) × ((send (1 ∷ 2 ∷ []) fresh).snd_queue ≡ fresh.snd_queue ++ q)
    × AllFit fresh.mss q
    × (bodies q ≡ 1 ∷ 2 ∷ [])
unfolding new_state
send_lem_example = send_lem (1 ∷ 2 ∷ []) fresh refl

abbrev queued : State
queued = record fresh { rcv_queue = two_bytes ∷ two_bytes ∷ [] }

recv_lem_example :
    ((queued.rcv_queue ≡ []) × (recv 3 queued ≡ err no_data))
    ⊎ ((queued.rcv_queue ≢ [])
        × (front back : List Segment) × Fitting queued.rcv_queue 3 front back
        × (recv 3 queued ≡ ok (record queued { rcv_queue = [] }, bodies front)))
recv_lem_example = recv_lem 3 queued

Reach-IsValid_example : IsValid (send (1 ∷ 2 ∷ []) fresh) × Keeps fresh (send (1 ∷ 2 ∷ []) fresh)
Reach-IsValid_example = Reach-IsValid (new_state-IsValid 5) (sent (1 ∷ 2 ∷ []) here)
