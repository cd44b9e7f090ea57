-- ===== src/Kcp/Life.antt =====
-- A session from its start: what its methods keep.
use oiwest_core.Common.{
  in_range, le32_at, ℕ, zero, suc, ◌+◌, ◌≡◌, refl, ap, ◌∙◌, inl, inr, Bool, false, List, [], ◌++◌,
  ltb, leb, ◌==◌, length, take, drop, All, All-append, ok, bind_ok, Bool-cases, arith,
}
use oiwest_core.Kcp.Flush.{Keeps, update_lem}
use oiwest_core.Kcp.Queues.{recv_lem}
use oiwest_core.Kcp.Valid.{IsValid}
use oiwest_core.Kcp.{
  Segment, State, overhead, new_state, recv, send, update, accept, input_loop, input, send_loop,
  cmd_push, decode_segment,
}

-- A new session is valid.
pub new_state-IsValid : (conv : ℕ) → IsValid (new_state conv)
unfolding new_state
new_state-IsValid conv = record {
  room = omega arith;
  silent = refl;
  alive = refl;
  limit = refl;
  fresh = tt;
  once = tt;
  numbered = tt;
  next = refl;
}

-- What the methods that only touch the queues leave alone.
pub queues-IsValid :
    (k : State) (q r b : List Segment) (w : ℕ)
    → All (λ (s : Segment). s.xmit ≡ 0) q
    → IsValid k
    → IsValid (record k { snd_queue = q; rcv_queue = r; rcv_buf = b; rmt_wnd = w })
queues-IsValid k q r b w h v = record {
  room = v.room;
  silent = v.silent;
  alive = v.alive;
  limit = v.limit;
  fresh = h;
  once = v.once;
  numbered = v.numbered;
  next = v.next;
}

pub send_loop-fresh :
    (n mss i : ℕ) (buffer : List ℕ) → All (λ (s : Segment). s.xmit ≡ 0) (send_loop n mss i buffer)
unfolding send_loop
send_loop-fresh zero mss i buffer = tt
send_loop-fresh (suc n) mss i buffer = (refl, send_loop-fresh n mss (i + 1) buffer)

pub send-IsValid : (buffer : List ℕ) (k : State) → IsValid k → IsValid (send buffer k)
unfolding send
send-IsValid buffer k v =
    queues-IsValid k _ k.rcv_queue k.rcv_buf k.rmt_wnd
      (All-append (λ (s : Segment). s.xmit ≡ 0) k.snd_queue _ v.fresh
        (send_loop-fresh _ k.mss 0 buffer))
      v

-- What a segment that comes in leaves of a session: its send buffer and all that it is valid by.
pub accept_keeps :
    (s : Segment) (k : State)
    → IsValid k
    → IsValid (accept s k) × ((accept s k).snd_buf ≡ k.snd_buf)
unfolding accept
accept_keeps s k v = elim (Bool-cases (s.cmd == cmd_push)) [
  | inl push ↦ rw push (queues-IsValid k k.snd_queue _ _ k.rmt_wnd v.fresh v, refl)
  | inr other ↦ elim (Bool-cases (s.cmd == 84)) [
    | inl wins ↦
        rw (other, wins) (queues-IsValid k k.snd_queue k.rcv_queue k.rcv_buf s.wnd v.fresh v, refl)
    | inr none_ ↦ rw (other, none_) (v, refl)
  ]
]

pub input_loop_keeps :
    (fuel : ℕ) (rest spare : List ℕ) (k k' : State)
    → IsValid k
    → input_loop fuel rest spare k ≡ ok k'
    → IsValid k' × (k'.snd_buf ≡ k.snd_buf)
unfolding input_loop
input_loop_keeps zero rest spare k k' v e = let same : k ≡ k' = cc e in rw (← same) (v, refl)
input_loop_keeps (suc fuel) rest spare k k' v e = elim (Bool-cases (ltb (length rest) overhead)) [
  | inl short ↦
      let done : ok k ≡ ok k' = rw (short, input_loop) at e in
      let same : k ≡ k' = cc done in rw (← same) (v, refl)
  | inr long ↦
      let n = le32_at rest 20 in
      let s = decode_segment rest (take n (drop overhead rest ++ spare)) in
      let (_, _, next) =
        bind_ok (in_range (leb n (length (drop overhead rest) + length spare))) _
          (rw (long, input_loop) at e) in
      let (v1, b1) = accept_keeps s k v in
      let (v2, b2) =
        input_loop_keeps fuel (drop n (drop overhead rest)) spare (accept s k) k' v1 next in
      (v2, b2 ∙ b1)
]

-- What happens to a session: data that is sent and received, datagrams that come in and that Input
-- takes, and the clock.
pub data Reach (k : State) : State → Type 0 where
  here : Reach k k
  sent : {l : State} (buffer : List ℕ) → Reach k l → Reach k (send buffer l)
  received :
      {l m : State} (size : ℕ) (out : List ℕ) → Reach k l → recv size l ≡ ok (m, out) → Reach k m
  came :
      {l m : State} (bytes spare : List ℕ) (taken : Bool)
      → Reach k l
      → input bytes spare l ≡ ok (m, taken)
      → Reach k m
  ticked : {l m : State} (current : ℕ) → Reach k l → update current l ≡ ok m → Reach k m

pub input_keeps :
    (bytes spare : List ℕ) (k k' : State) (taken : Bool)
    → IsValid k
    → input bytes spare k ≡ ok (k', taken)
    → IsValid k' × (k'.snd_buf ≡ k.snd_buf)
unfolding input
input_keeps bytes spare k k' taken v e = elim (Bool-cases (ltb (length bytes) overhead)) [
  | inl short ↦
      let done : ok (k, false) ≡ ok (k', taken) = rw (short, input) at e in
      let same : k ≡ k' = cc done in rw (← same) (v, refl)
  | inr long ↦
      let (k1, looped, last) =
        bind_ok (input_loop (length bytes) bytes spare k) _ (rw (long, input) at e) in
      let same : k1 ≡ k' = cc last in
      rw (← same) (input_loop_keeps (length bytes) bytes spare k k1 v looped)
]

pub recv_keeps :
    (size : ℕ) (k k' : State) (out : List ℕ)
    → IsValid k
    → recv size k ≡ ok (k', out)
    → IsValid k' × (k'.snd_buf ≡ k.snd_buf)
recv_keeps size k k' out v e = elim (recv_lem size k) [
  | inl (empty, failed) ↦ cc (e, failed)
  | inr (_, front, back, f, made) ↦
      let same : record k { rcv_queue = [] } ≡ k' = cc (e, made) in
      rw (← same) (queues-IsValid k k.snd_queue [] k.rcv_buf k.rmt_wnd v.fresh v, refl)
]

pub send_keeps : (buffer : List ℕ) (k : State) → (send buffer k).snd_buf ≡ k.snd_buf
unfolding send
send_keeps buffer k = refl

-- From a valid session only valid ones are reached, and none with fewer segments in its send buffer:
-- no acknowledgement is ever sent, no session is ever found dead, and nothing that was sent is ever
-- taken as delivered.
pub Reach-IsValid : {k k' : State} → IsValid k → Reach k k' → IsValid k' × Keeps k k'
Reach-IsValid v here = (v, omega arith)
Reach-IsValid v (sent {l} buffer r) =
    let (v1, n) = Reach-IsValid v r in
    (send-IsValid buffer l v1, omega (arith, ap length (send_keeps buffer l)))
Reach-IsValid v (received {l} {m} size out r e) =
    let (v1, n) = Reach-IsValid v r in
    let (v2, b) = recv_keeps size l m out v1 e in (v2, omega (arith, ap length b))
Reach-IsValid v (came {l} {m} bytes spare taken r e) =
    let (v1, n) = Reach-IsValid v r in
    let (v2, b) = input_keeps bytes spare l m taken v1 e in (v2, omega (arith, ap length b))
Reach-IsValid v (ticked {l} {m} current r e) =
    let (v1, n) = Reach-IsValid v r in
    let (m', e', v2, kept) = update_lem current l v1 in
    let same : m' ≡ m = cc (e, e') in rw (← same) (v2, omega arith)
