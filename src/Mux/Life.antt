-- ===== src/Mux/Life.antt =====
-- What a session keeps for its whole life, and what Close does to it.
use oiwest_core.Common.{
  suc, [], ◌∷◌, Bool, ◌&&◌, ◌==◌, Bool-cases, ℕ, ◌^◌, ◌≤◌, ◌<◌, ◌≡◌, ◌⊎◌, refl, ap, ◌∙◌, inl, inr,
  true, false, List, length, none, some, Option-cases, Result, ok, err, panic, bind_ok, arith,
}
use oiwest_core.Buf.{Buffer}
use oiwest_core.Mux.Assoc.{lookup, length-insert}
use oiwest_core.Mux.{
  new_stream, Session, Error, session_closed, max_streams_reached, FrameKind, data_frame,
  close_frame, reset_frame, ping, pong, go_away, unknown, table_of, open_stream, handle_data,
  handle_close, handle_reset, write_frame, dispatch, close, ignore, Stream, Closing, returned,
  awaiting, shut, put_back, with_error, stream_close, stream_reset, stream_read, session_read,
  ReadResult,
}
use oiwest_core.Mux.Accept.{accept_stream}
use oiwest_core.Mux.Ids.{Entered, handle_data_ok, open_stream_ok}

abbrev pub count : Session → ℕ
count s = length (table_of s.streams)

-- A later session has at least the streams of the earlier one, under the same limit and the same flag.
pub record Grows (s s' : Session) : Type 0 where
  pub more : count s ≤ count s'
  pub limit : s'.max_streams ≡ s.max_streams
  pub flag : s'.closed ≡ s.closed

Entered-Grows : {id : ℕ} {s s' : Session} → Entered id s s' → Grows s s'
Entered-Grows {id} {s} {s'} c = record {
  more = rw c.table (length-insert id c.stream (table_of s.streams));
  limit = c.limit;
  flag = c.flag;
}

then_ : {s t u : Session} → Grows s t → Grows t u → Grows s u
then_ a b = record {
  more = omega (arith, a.more, b.more);
  limit = b.limit ∙ a.limit;
  flag = b.flag ∙ a.flag;
}

handle_data-Grows :
    (b : Buffer) (id : ℕ) (payload : List ℕ) (s s' : Session)
    → handle_data b id payload s ≡ ok s'
    → Grows s s'
handle_data-Grows b id payload s s' e = elim (handle_data_ok b id payload s s' e) [
  | inl same ↦ rw same (record { more = omega arith; limit = refl; flag = refl })
  | inr c ↦ Entered-Grows c
]

handle_close-Grows : (id : ℕ) (s : Session) → Grows s (handle_close id s)
unfolding handle_close
handle_close-Grows id s = elim (Option-cases (lookup id (table_of s.streams))) [
  | inl new ↦ rw (new, handle_close) (record { more = omega arith; limit = refl; flag = refl })
  | inr (st, there) ↦
      rw (there, handle_close)
        (record { more = length-insert id _ (table_of s.streams); limit = refl; flag = refl })
]

handle_reset-Grows : (id : ℕ) (s : Session) → Grows s (handle_reset id s)
unfolding handle_reset
handle_reset-Grows id s = elim (Option-cases (lookup id (table_of s.streams))) [
  | inl new ↦ rw (new, handle_reset) (record { more = omega arith; limit = refl; flag = refl })
  | inr (st, there) ↦
      rw (there, handle_reset)
        (record { more = length-insert id _ (table_of s.streams); limit = refl; flag = refl })
]

same-Grows : {s s' : Session} → s ≡ s' → Grows s s'
same-Grows {s} e = rw (← e) (record { more = omega arith; limit = refl; flag = refl })

write_frame-Grows :
    (id kind : ℕ) (payload : List ℕ) (s s' : Session)
    → write_frame id kind payload s ≡ ok s'
    → Grows s s'
unfolding write_frame
write_frame-Grows id kind payload s s' e = ground arith

ignore_ok :
    (s s1 : Session) (r : Result Error Session) → ignore s r ≡ ok s1 → (s ≡ s1) ⊎ (r ≡ ok s1)
ignore_ok s s1 (ok s') e = inr e
ignore_ok s s1 (err x) e = inl (cc e)
ignore_ok s s1 panic e = cc

open_stream-Grows :
    (b : Buffer) (s s' : Session) (id : ℕ) → open_stream b s ≡ ok (id, s') → Grows s s'
open_stream-Grows b s s' id e =
    let (t, filled, named, made) = open_stream_ok b s s' id e in
    let same : count s ≡ length t = ap (λ o. length (table_of o)) filled in
    let longer = length-insert s.next_id (new_stream b) t in
    rw made (record { more = omega arith; limit = refl; flag = refl })

dispatch-Grows :
    (b : Buffer) (id : ℕ) (k : FrameKind) (payload : List ℕ) (s s' : Session)
    → dispatch b id k payload s ≡ ok (some s')
    → Grows s s'
unfolding dispatch
dispatch-Grows b id data_frame payload s s' e =
    let (s1, handled, same) = bind_ok (handle_data b id payload s) _ e in
    let same' : s1 ≡ s' = cc same in rw (← same') (handle_data-Grows b id payload s s1 handled)
dispatch-Grows b id close_frame payload s s' e =
    let same : handle_close id s ≡ s' = cc e in rw (← same) (handle_close-Grows id s)
dispatch-Grows b id reset_frame payload s s' e =
    let same : handle_reset id s ≡ s' = cc e in rw (← same) (handle_reset-Grows id s)
dispatch-Grows b id ping payload s s' e =
    let (s1, answered, same) = bind_ok (ignore s (write_frame 0 4 payload s)) _ e in
    let same' : s1 ≡ s' = cc same in
    elim (ignore_ok s s1 (write_frame 0 4 payload s) answered) [
      | inl kept ↦ same-Grows (kept ∙ same')
      | inr sent ↦ write_frame-Grows 0 4 payload s s' (sent ∙ ap ok same')
    ]
dispatch-Grows b id pong payload s s' e = same-Grows (cc e)
dispatch-Grows b id go_away payload s s' e = cc
dispatch-Grows b id (unknown t) payload s s' e = same-Grows (cc e)

put_back-Grows : (id : ℕ) (st : Stream) (s : Session) → Grows s (put_back id st s)
unfolding put_back
put_back-Grows id st s = record {
  more = length-insert id st (table_of s.streams);
  limit = refl;
  flag = refl;
}

with_error-Grows :
    (id kind : ℕ) (s : Session) → Grows s ((with_error s (write_frame id kind [] s)).0)
unfolding write_frame
with_error-Grows id kind s = elim (Bool-cases s.closed) [
  | inl shut_ ↦ rw shut_ (same-Grows refl)
  | inr open_ ↦ rw open_ (record { more = omega arith; limit = refl; flag = refl })
]

stream_close-Grows :
    (id : ℕ) (s s' : Session) (r : Result Error (Unit {0}))
    → stream_close id s ≡ some (s', r)
    → Grows s s'
unfolding stream_close
stream_close-Grows id s s' r e = elim (Option-cases (lookup id (table_of s.streams))) [
  | inl new ↦ absurd (ground arith)
  | inr (st, there) ↦
      let changed : Session = put_back id (record st { closed = true }) s in
      elim (Bool-cases st.closed) [
        | inl was ↦ same-Grows (ground arith)
        | inr not_ ↦
            let same : (with_error changed (write_frame id 1 [] changed)).0 ≡ s' = ground arith in
            rw (← same) (
              then_ (put_back-Grows id (record st { closed = true }) s)
                (with_error-Grows id 1 changed))
      ]
]

stream_reset-Grows :
    (id : ℕ) (s s' : Session) (r : Result Error (Unit {0}))
    → stream_reset id s ≡ some (s', r)
    → Grows s s'
unfolding stream_reset
stream_reset-Grows id s s' r e = elim (Option-cases (lookup id (table_of s.streams))) [
  | inl new ↦ absurd (ground arith)
  | inr (st, there) ↦
      let changed : Session = put_back id (record st { reset = true }) s in
      let same : (with_error changed (write_frame id 2 [] changed)).0 ≡ s' = ground arith in
      rw (← same)
        (then_ (put_back-Grows id (record st { reset = true }) s) (with_error-Grows id 2 changed))
]

session_read-Grows :
    (size id : ℕ) (s s' : Session) (r : ReadResult)
    → session_read size id s ≡ some (s', r)
    → Grows s s'
unfolding session_read
session_read-Grows size id s s' r e = elim (Option-cases (lookup id (table_of s.streams))) [
  | inl new ↦ absurd (ground arith)
  | inr (st, there) ↦
      let same : put_back id ((stream_read size st).0) s ≡ s' = ground arith in
      rw (← same) (put_back-Grows id ((stream_read size st).0) s)
]

accept_stream-Grows : (done_first : Bool) (s : Session) → Grows s ((accept_stream done_first s).0)
accept_stream-Grows done_first s = from s.accept_queue refl
  where
    from : (q : List ℕ) → s.accept_queue ≡ q → Grows s ((accept_stream done_first s).0)
    from [] e = rw e (same-Grows refl)
    from (id ∷ queue) e = elim (Bool-cases (s.closed && done_first)) [
      | inl first ↦ rw (e, first) (same-Grows refl)
      | inr taken ↦ rw (e, taken) (record { more = omega arith; limit = refl; flag = refl })
    ]

-- Where a call of Close left the session.
abbrev pub session_of : Closing → Session
session_of (returned s) = s
session_of (awaiting s) = s

close_closed : (running : ℕ) (s : Session) → (session_of (close running s)).closed ≡ true
unfolding close shut write_frame
close_closed running s = elim (Bool-cases s.closed) [
  | inl was ↦ rw was refl
  | inr open_ ↦ elim (Bool-cases (running == 0)) [
    | inl none_ ↦ rw (open_, none_) refl
    | inr some_ ↦ rw (open_, some_) refl
  ]
]

-- What happens to a session: frames that arrive, streams that are opened and accepted, frames that are written,
-- the Close, Reset and Read of its streams, and its own Close.
pub data Reach (s : Session) : Session → Type 0 where
  here : Reach s s
  received :
      {t u : Session} (b : Buffer) (id : ℕ) (k : FrameKind) (payload : List ℕ)
      → Reach s t
      → dispatch b id k payload t ≡ ok (some u)
      → Reach s u
  opened :
      {t u : Session} (b : Buffer) (id : ℕ) → Reach s t → open_stream b t ≡ ok (id, u) → Reach s u
  accepted :
      {t : Session} (done_first : Bool) → Reach s t → Reach s ((accept_stream done_first t).0)
  wrote :
      {t u : Session} (id kind : ℕ) (payload : List ℕ)
      → Reach s t
      → write_frame id kind payload t ≡ ok u
      → Reach s u
  stream_closed :
      {t u : Session} (id : ℕ) (r : Result Error (Unit {0}))
      → Reach s t
      → stream_close id t ≡ some (u, r)
      → Reach s u
  stream_resets :
      {t u : Session} (id : ℕ) (r : Result Error (Unit {0}))
      → Reach s t
      → stream_reset id t ≡ some (u, r)
      → Reach s u
  stream_reads :
      {t u : Session} (size id : ℕ) (r : ReadResult)
      → Reach s t
      → session_read size id t ≡ some (u, r)
      → Reach s u
  closes : {t : Session} (running : ℕ) → Reach s t → Reach s (session_of (close running t))

abbrev Lasts : Session → Session → Type 0
Lasts s s' = (s'.closed ≡ true) ⊎ Grows s s'

goes_on : {s t u : Session} → Lasts s t → Grows t u → Lasts s u
goes_on (inl c) g = inl (g.flag ∙ c)
goes_on (inr h) g = inr (then_ h g)

Reach-Lasts : {s s' : Session} → Reach s s' → Lasts s s'
Reach-Lasts here = inr (same-Grows refl)
Reach-Lasts (received {t} {u} b id k payload r e) =
    goes_on (Reach-Lasts r) (dispatch-Grows b id k payload t u e)
Reach-Lasts (opened {t} {u} b id r e) = goes_on (Reach-Lasts r) (open_stream-Grows b t u id e)
Reach-Lasts (accepted {t} done_first r) = goes_on (Reach-Lasts r) (accept_stream-Grows done_first t)
Reach-Lasts (wrote {t} {u} id kind payload r e) =
    goes_on (Reach-Lasts r) (write_frame-Grows id kind payload t u e)
Reach-Lasts (stream_closed {t} {u} id o r e) =
    goes_on (Reach-Lasts r) (stream_close-Grows id t u o e)
Reach-Lasts (stream_resets {t} {u} id o r e) =
    goes_on (Reach-Lasts r) (stream_reset-Grows id t u o e)
Reach-Lasts (stream_reads {t} {u} size id o r e) =
    goes_on (Reach-Lasts r) (session_read-Grows size id t u o e)
Reach-Lasts (closes {t} running r) = inl (close_closed running t)

-- A session that has reached its limit of streams opens no other one in any later state with less than 2^32
-- streams, whatever arrives, is accepted, read or written, and even if all of its streams are closed or reset:
-- none is ever taken out of the map of an open session, and a closed one opens none.
pub full_forever :
    (b : Buffer) {s s' : Session}
    → Reach s s'
    → s.max_streams ≤ count s
    → count s' < 2 ^ 32
    → (open_stream b s' ≡ err session_closed) ⊎ (open_stream b s' ≡ err max_streams_reached)
unfolding open_stream
full_forever b {s} {s'} r full small = elim (Bool-cases s'.closed) [
  | inl c ↦ inl (ground arith)
  | inr c ↦ elim (Reach-Lasts r) [
    | inl closed_ ↦ cc (c, closed_)
    | inr g ↦ inr (ground (arith, g.more, g.limit))
  ]
]

-- Close on an open session marks it closed and drops its streams without sending anything, not even
-- the go-away frame, and leaves the connection open while a goroutine is in the wait group; a second Close
-- returns and changes nothing, and nothing can be opened or written after it.
pub close_lem :
    (b : Buffer) (id kind running : ℕ) (payload : List ℕ) (s : Session)
    → s.closed ≡ false
    → (close (suc running) s ≡ awaiting (shut s))
      × ((shut s).closed ≡ true)
      × ((shut s).streams ≡ none)
      × ((shut s).sent ≡ s.sent)
      × ((shut s).conn_closed ≡ s.conn_closed)
      × (close running (shut s) ≡ returned (shut s))
      × (open_stream b (shut s) ≡ err session_closed)
      × (write_frame id kind payload (shut s) ≡ err session_closed)
unfolding close shut open_stream write_frame
close_lem b id kind running payload s e = ground arith
