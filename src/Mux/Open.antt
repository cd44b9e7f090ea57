-- ===== src/Mux/Open.antt =====
-- What the switch of readLoop of app/features/multiplex/mux.go does to an open session.
use oiwest_core.Common.{
  ◌==◌, ◌%◌, ℕ, ◌≡◌, refl, sym, subst, ◌∙◌, ap, true, false, List, [], ◌∷◌, ◌++◌, length, ltb,
  if_false, none, some, Option-cases, Bool-cases, Result, ok, arith, inl, inr, ◌⊎◌,
}
use oiwest_core.Buf.{Buffer}
use oiwest_core.Buf.Split.{IsValid}
use oiwest_core.Buf.Contents.{write_lem}
use oiwest_core.Mux.Assoc.{Table, lookup, insert}
use oiwest_core.Mux.{
  Stream, Session, Error, FrameKind, data_frame, close_frame, reset_frame, ping, pong, go_away,
  unknown, frame_bytes, write_frame, new_stream, deliver, store, announce, accept_data, handle_data,
  handle_close, handle_reset, dispatch, table_of,
}

-- An open session whose streams have valid buffers.
abbrev pub AllValid : Table Stream → Type 0
AllValid [] = Unit
AllValid ((id, st) ∷ t) = IsValid st.read_buf × AllValid t

pub record IsOpen (s : Session) : Type 0 where
  pub table : Table Stream
  pub filled : s.streams ≡ some table
  pub valid : AllValid table
  pub not_closed : s.closed ≡ false
  pub connected : s.conn_closed ≡ false

AllValid-insert :
    (id : ℕ) (st : Stream) (t : Table Stream)
    → IsValid st.read_buf
    → AllValid t
    → AllValid (insert id st t)
unfolding insert
AllValid-insert id st [] v vs = (v, tt)
AllValid-insert id st ((j, w) ∷ t) v (x, xs) = elim (Bool-cases (j == id)) [
  | inl same ↦ rw same (v, xs)
  | inr other ↦ rw other (x, AllValid-insert id st t v xs)
]

AllValid-lookup :
    (id : ℕ) (t : Table Stream) {st : Stream}
    → AllValid t
    → lookup id t ≡ some st
    → IsValid st.read_buf
unfolding lookup
AllValid-lookup id [] v e = absurd (ground arith)
AllValid-lookup id ((j, w) ∷ t) {st} (x, xs) e = elim (Bool-cases (j == id)) [
  | inl same ↦ let found : w ≡ st = cc (rw same at e) in rw (← found) x
  | inr other ↦ AllValid-lookup id t {st = st} xs (rw other at e)
]

deliver_ok :
    (payload : List ℕ) (st : Stream)
    → IsValid st.read_buf
    → (st' : Stream) × (deliver payload st ≡ ok st') × IsValid st'.read_buf
deliver_ok payload st v =
    let (b, e, v', _) = write_lem payload st.read_buf v in
    (record st { read_buf = b; signal = true }, rw (e, deliver) refl, v')

-- The session with a stream in its table.
abbrev entered : ℕ → Stream → Table Stream → Session → Session
entered id st t s = record s { streams = some (insert id st t) }

put-IsOpen :
    (id : ℕ) (st : Stream) (s : Session) (o : IsOpen s)
    → IsValid st.read_buf
    → IsOpen (entered id st o.table s)
put-IsOpen id st s o v = record {
  table = insert id st o.table;
  filled = refl;
  valid = AllValid-insert id st o.table v o.valid;
  not_closed = o.not_closed;
  connected = o.connected;
}

store_ok :
    (id : ℕ) (st : Stream) (s : Session) (t : Table Stream)
    → s.streams ≡ some t
    → store id st s ≡ ok (entered id st t s)
unfolding store
store_ok id st s t e = rw (e, store) refl

announce-IsOpen : (id : ℕ) (s : Session) → IsOpen s → IsOpen (announce id s)
unfolding announce
announce-IsOpen id s o = elim (Bool-cases (ltb (length s.accept_queue) 32)) [
  | inl room ↦ rw room (record {
    table = o.table;
    filled = o.filled;
    valid = o.valid;
    not_closed = o.not_closed;
    connected = o.connected;
  })
  | inr full ↦ rw full o
]

table_lem : (s : Session) (o : IsOpen s) → table_of s.streams ≡ o.table
table_lem s o = ap table_of o.filled

-- A session that goes on.
abbrev GoesOn : Result Error Session → Type 0
GoesOn r = (s' : Session) × (r ≡ ok s') × IsOpen s'

accept_data-GoesOn :
    (b : Buffer) (id : ℕ) (payload : List ℕ) (s : Session)
    → IsOpen s
    → IsValid b
    → GoesOn (accept_data b id payload s)
unfolding accept_data
accept_data-GoesOn b id payload s o v =
    let (st, given, v') = deliver_ok payload (new_stream b) v in
    let s1 = entered id st o.table s in
    (
      announce id s1,
      rw (given, store_ok id st s o.table o.filled) refl,
      announce-IsOpen id s1 (put-IsOpen id st s o v'),
    )

handle_data-GoesOn :
    (b : Buffer) (id : ℕ) (payload : List ℕ) (s : Session)
    → IsOpen s
    → IsValid b
    → GoesOn (handle_data b id payload s)
unfolding handle_data
handle_data-GoesOn b id payload s o v = elim (Option-cases (lookup id (table_of s.streams))) [
  | inl new ↦ elim (Bool-cases (id % 2 == 0)) [
    | inl even ↦
        let (s', e, o') = accept_data-GoesOn b id payload s o v in
        (s', rw (new, handle_data, even) e, o')
    | inr odd ↦ (s, rw (new, handle_data, odd) refl, o)
  ]
  | inr (st, there) ↦
      let there' : lookup id o.table ≡ some st = ap (lookup id) (sym (table_lem s o)) ∙ there in
      let (st', given, v') =
        deliver_ok payload st (AllValid-lookup id o.table {st = st} o.valid there') in
      (
        entered id st' o.table s,
        rw (there, handle_data, given) (store_ok id st' s o.table o.filled),
        put-IsOpen id st' s o v',
      )
]

marked-IsOpen :
    (id : ℕ) (st st' : Stream) (s : Session)
    → IsOpen s
    → lookup id (table_of s.streams) ≡ some st
    → st'.read_buf ≡ st.read_buf
    → IsOpen (entered id st' (table_of s.streams) s)
marked-IsOpen id st st' s o there e =
    let there' : lookup id o.table ≡ some st = ap (lookup id) (sym (table_lem s o)) ∙ there in
    let v = AllValid-lookup id o.table {st = st} o.valid there' in
    subst (λ t. IsOpen (entered id st' t s)) (sym (table_lem s o))
      (put-IsOpen id st' s o (subst IsValid (sym e) v))

handle_close-IsOpen : (id : ℕ) (s : Session) → IsOpen s → IsOpen (handle_close id s)
unfolding handle_close
handle_close-IsOpen id s o = elim (Option-cases (lookup id (table_of s.streams))) [
  | inl new ↦ rw (new, handle_close) o
  | inr (st, there) ↦ rw (there, handle_close) (marked-IsOpen id st _ s o there refl)
]

handle_reset-IsOpen : (id : ℕ) (s : Session) → IsOpen s → IsOpen (handle_reset id s)
unfolding handle_reset
handle_reset-IsOpen id s o = elim (Option-cases (lookup id (table_of s.streams))) [
  | inl new ↦ rw (new, handle_reset) o
  | inr (st, there) ↦ rw (there, handle_reset) (marked-IsOpen id st _ s o there refl)
]

write_frame-GoesOn :
    (id kind : ℕ) (payload : List ℕ) (s : Session)
    → IsOpen s
    → GoesOn (write_frame id kind payload s)
unfolding write_frame
write_frame-GoesOn id kind payload s o = (
  record s { sent = s.sent ++ frame_bytes id kind payload ∷ [] },
  if_false _ o.not_closed,
  record {
    table = o.table;
    filled = o.filled;
    valid = o.valid;
    not_closed = o.not_closed;
    connected = o.connected;
  },
)

-- The switch on an open session ends the loop, or leaves an open session.
pub dispatch-IsOpen :
    (b : Buffer) (id : ℕ) (k : FrameKind) (payload : List ℕ) (s : Session)
    → IsOpen s
    → IsValid b
    → (dispatch b id k payload s ≡ ok none)
      ⊎ ((s' : Session) × (dispatch b id k payload s ≡ ok (some s')) × IsOpen s')
unfolding dispatch
dispatch-IsOpen b id data_frame payload s o v =
    let (s', e, o') = handle_data-GoesOn b id payload s o v in inr (s', rw e refl, o')
dispatch-IsOpen b id close_frame payload s o v =
    inr (handle_close id s, refl, handle_close-IsOpen id s o)
dispatch-IsOpen b id reset_frame payload s o v =
    inr (handle_reset id s, refl, handle_reset-IsOpen id s o)
dispatch-IsOpen b id ping payload s o v =
    let (s', e, o') = write_frame-GoesOn 0 4 payload s o in inr (s', rw e refl, o')
dispatch-IsOpen b id pong payload s o v = inr (s, refl, o)
dispatch-IsOpen b id go_away payload s o v = inl refl
dispatch-IsOpen b id (unknown t) payload s o v = inr (s, refl, o)
