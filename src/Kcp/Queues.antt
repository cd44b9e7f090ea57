-- ===== src/Kcp/Queues.antt =====
-- What Send puts into the send queue and Recv takes out of the receive queue.
use oiwest_core.Common.{
  ℕ, zero, suc, ◌+◌, ◌-◌, ◌*◌, ◌/◌, ◌^◌, ◌≤◌, ◌<◌, ◌≡◌, ◌≢◌, refl, sym, ap, ◌∙◌, inl, inr, ◌⊎◌,
  List, [], ◌∷◌, ◌++◌, ltb, length, take, drop, slice, length-take, length-drop, take-append-drop,
  ok, err, Bool-cases, arith, min,
}
use oiwest_core.Common.Copying.{drop_all, drop-drop, take-min}
use oiwest_core.Kcp.{Segment, State, recv_loop, recv, send_loop, send, no_data, mtu_def, overhead}

-- The data of a list of segments.
pub bodies : List Segment → List ℕ
bodies [] = []
bodies (s ∷ q) = s.body ++ bodies q

-- Segments of at most so many bytes of data, which they count.
abbrev pub AllFit : ℕ → List Segment → Type 0
AllFit mss [] = Unit
AllFit mss (s ∷ q) = (length s.body ≤ mss) × (s.len ≡ length s.body) × AllFit mss q

piece :
    (mss start : ℕ) (buffer : List ℕ)
    → slice buffer start (min (start + mss) (length buffer)) ≡ take mss (drop start buffer)
piece mss start buffer =
    ap (λ n. take n (drop start buffer)) {y = min mss (length (drop start buffer))}
      (omega (arith, length-drop start buffer))
    ∙ take-min mss (drop start buffer)

send_loop-bodies :
    (n mss i : ℕ) (buffer : List ℕ)
    → length buffer ≤ i * mss + n * mss
    → bodies (send_loop n mss i buffer) ≡ drop (i * mss) buffer
unfolding send_loop bodies
send_loop-bodies zero mss i buffer h = sym (drop_all (i * mss) buffer (grind arith))
send_loop-bodies (suc n) mss i buffer h =
    let next : (i + 1) * mss ≡ i * mss + mss = grind arith in
    let step : i * mss + suc n * mss ≡ (i + 1) * mss + n * mss = grind arith in
    rw
      (
        piece mss (i * mss) buffer,
        send_loop-bodies n mss (i + 1) buffer (omega (arith, step)),
        next,
        ← drop-drop mss (i * mss) buffer,
        take-append-drop mss (drop (i * mss) buffer),
      )
      refl

send_loop-AllFit :
    (n mss i : ℕ) (buffer : List ℕ) → mss < 2 ^ 32 → AllFit mss (send_loop n mss i buffer)
unfolding send_loop
send_loop-AllFit zero mss i buffer h = tt
send_loop-AllFit (suc n) mss i buffer h =
    let start = i * mss in
    let size = length-take (min (start + mss) (length buffer) - start) (drop start buffer) in
    let back = length-drop start buffer in
    (omega arith, omega arith, send_loop-AllFit n mss (i + 1) buffer h)

-- Send on a session with the default segment size queues segments of at most that size, which count
-- their data, and whose data together is the data sent.
pub send_lem :
    (buffer : List ℕ) (k : State)
    → k.mss ≡ mtu_def - overhead
    → (q : List Segment) × ((send buffer k).snd_queue ≡ k.snd_queue ++ q)
      × AllFit k.mss q
      × (bodies q ≡ buffer)
unfolding send
send_lem buffer k e =
    let n = (length buffer + k.mss - 1) / k.mss in
    (
      send_loop n k.mss 0 buffer,
      refl,
      send_loop-AllFit n k.mss 0 buffer (omega (arith, e)),
      send_loop-bodies n k.mss 0 buffer (rw e (omega arith))
          ∙ ap (λ i. drop i buffer) {y = 0} (grind arith),
    )

-- What a queue holds in segments that fit a room one after the other, up to the first that does not.
pub data Fitting : List Segment → ℕ → List Segment → List Segment → Type 0 where
  stop_empty : {room : ℕ} → Fitting [] room [] []
  stop_full :
      {s : Segment} {q : List Segment} {room : ℕ}
      → room < length s.body
      → Fitting (s ∷ q) room [] (s ∷ q)
  go :
      {s : Segment} {q front back : List Segment} {room : ℕ}
      → length s.body ≤ room
      → Fitting q (room - length s.body) front back
      → Fitting (s ∷ q) room (s ∷ front) back

recv_loop-Fitting :
    (q : List Segment) (room : ℕ)
    → (front back : List Segment) × Fitting q room front back × (recv_loop q room ≡ bodies front)
unfolding recv_loop bodies
recv_loop-Fitting [] room = ([], [], stop_empty, refl)
recv_loop-Fitting (s ∷ q) room = elim (Bool-cases (ltb room (length s.body))) [
  | inl full ↦ ([], s ∷ q, stop_full (ground arith), rw (full, recv_loop) refl)
  | inr fits ↦
      let (front, back, f, e) = recv_loop-Fitting q (room - length s.body) in
      (s ∷ front, back, go (ground arith) f, rw (fits, recv_loop, e) refl)
]

-- Recv on an empty queue answers that there is no data; on any other queue it answers the data of its front segments as far as they fit the
-- buffer, and drops the whole queue, the segments that did not fit with it.
pub recv_lem :
    (size : ℕ) (k : State)
    → ((k.rcv_queue ≡ []) × (recv size k ≡ err no_data))
      ⊎ ((k.rcv_queue ≢ [])
          × (front back : List Segment) × Fitting k.rcv_queue size front back
          × (recv size k ≡ ok (record k { rcv_queue = [] }, bodies front)))
unfolding recv
recv_lem size k = split k.rcv_queue refl
  where
    split :
        (q : List Segment)
        → k.rcv_queue ≡ q
        → ((k.rcv_queue ≡ []) × (recv size k ≡ err no_data))
          ⊎ ((k.rcv_queue ≢ [])
              × (front back : List Segment) × Fitting k.rcv_queue size front back
              × (recv size k ≡ ok (record k { rcv_queue = [] }, bodies front)))
    split [] e = inl (e, rw (e, recv) refl)
    split (s ∷ q) e =
        let (front, back, f, out) = recv_loop-Fitting (s ∷ q) size in
        inr ((λ n. cc (e, n)), front, back, rw e f, rw (e, recv, out) refl)
