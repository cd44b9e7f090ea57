-- ===== src/Xhttp/Delivery.antt =====
-- The data of many frames, stream by stream.
use oiwest_core.Common.{
  if_both, ltb, ℕ, zero, suc, ◌+◌, ◌%◌, ◌^◌, ◌<◌, ◌≡◌, refl, sym, ap, ◌∙◌, Bool, true, false, ◌==◌,
  ==_iff, if◌then◌else◌, Bool-cases, Option-cases, inl, inr, List, [], ◌∷◌, ◌++◌, append-nil,
  append_assoc, length, some, ok, All, arith,
}
use oiwest_core.Mux.Assoc.{lookup, insert, lookup-insert}
use oiwest_core.Xhttp.{
  Stream, Conn, new_conn, new_stream, open_stream, frame_bytes, write_frame, read_frame, announce,
  appended, handle_data, dispatch, type_of, read_loop, stream_write,
}
use oiwest_core.Xhttp.Frames.{read_frame-frame_bytes}

-- Data for a stream, and the frames that carry it.
pub record Chunk : Type 0 where
  pub id : ℕ
  pub bytes : List ℕ

abbrev pub Fits : Chunk → Type 0
Fits k = (k.id < 2 ^ 32) × (length k.bytes < 2 ^ 32)

unfoldable pub wire : List Chunk → List ℕ
wire [] = []
wire (k ∷ ks) = frame_bytes k.id 1 0 k.bytes ++ wire ks

-- The data for one stream, in order.
unfoldable pub payloads : ℕ → List Chunk → List ℕ
payloads id [] = []
payloads id (k ∷ ks) = let rest = payloads id ks in if k.id == id then k.bytes ++ rest else rest

handle_data-closed : (j : ℕ) (bytes : List ℕ) (c : Conn) → (handle_data j bytes c).closed ≡ c.closed
unfolding handle_data announce
handle_data-closed j bytes c = ground arith

own-handle_data :
    (id : ℕ) (bytes : List ℕ) (st : Stream) (c : Conn)
    → lookup id c.streams ≡ some st
    → lookup id (handle_data id bytes c).streams ≡ some (appended bytes st)
unfolding handle_data
own-handle_data id bytes st c h =
    rw (handle_data, h, lookup-insert id id (appended bytes st) c.streams, (==_iff id id).1 refl)
      refl

announce-streams : (id : ℕ) (c : Conn) → (announce id c).streams ≡ c.streams
unfolding announce
announce-streams id c =
    if_both (λ (r : Conn). r.streams ≡ c.streams) (ltb (length c.accept_queue) 16) refl refl

other-handle_data :
    (id j : ℕ) (bytes : List ℕ) (c : Conn)
    → (j == id) ≡ false
    → lookup id (handle_data j bytes c).streams ≡ lookup id c.streams
unfolding handle_data
other-handle_data id j bytes c e = elim (Option-cases (lookup j c.streams)) [
  | inr (st, there) ↦
      rw (handle_data, there, lookup-insert j id (appended bytes st) c.streams, e) refl
  | inl none_ ↦
      rw (handle_data, none_)
        (if_both (λ (r : Conn). lookup id r.streams ≡ lookup id c.streams) (j % 2 == 0)
          (ap (lookup id) (announce-streams j _)
            ∙ lookup-insert j id (appended bytes new_stream) c.streams
            ∙ ap (λ b. if b then some (appended bytes new_stream) else lookup id c.streams) e)
          refl)
]

-- What handleData does to the entry of a stream that is there.
lookup-handle_data :
    (id j : ℕ) (bytes : List ℕ) (st : Stream) (c : Conn)
    → lookup id c.streams ≡ some st
    → lookup id (handle_data j bytes c).streams ≡ some (if j == id then appended bytes st else st)
lookup-handle_data id j bytes st c h = elim (Bool-cases (j == id)) [
  | inl e ↦
      ap (λ k. lookup id (handle_data k bytes c).streams) ((==_iff j id).0 e)
      ∙ own-handle_data id bytes st c h
      ∙ sym (ap (λ b. some (if b then appended bytes st else st)) e)
  | inr e ↦
      other-handle_data id j bytes c e
      ∙ h
      ∙ sym (ap (λ b. some (if b then appended bytes st else st)) e)
]

appended_both :
    (b : Bool) (xs ys : List ℕ) (st : Stream)
    → appended ys (if b then appended xs st else st) ≡ appended (if b then xs ++ ys else ys) st
appended_both true xs ys st = ap (λ r. record st { read_buf = r }) (append_assoc st.read_buf xs ys)
appended_both false xs ys st = refl

read_loop_end : (fuel : ℕ) (c : Conn) → read_loop (suc fuel) [] c ≡ c
unfolding read_loop read_frame
read_loop_end fuel c = elim c.closed as (λ b. (elim b [ true ↦ c | false ↦ c ]) ≡ c) [
  | true ↦ refl
  | false ↦ refl
]

-- A round of the loop on a frame of data.
read_loop_data :
    (fuel : ℕ) (k : Chunk) (rest : List ℕ) (c : Conn)
    → Fits k
    → c.closed ≡ false
    → read_loop (suc fuel) (frame_bytes k.id 1 0 k.bytes ++ rest) c
      ≡ read_loop fuel rest (handle_data k.id k.bytes c)
unfolding read_loop dispatch type_of
read_loop_data fuel k rest c (h, n) open_ =
    simp (read_loop, open_, read_frame-frame_bytes k.id 1 0 k.bytes rest h n, type_of, dispatch)

-- The read loop of an open connection gets the data of every stream that it has to that stream whole and in
-- order, whatever comes for others between.
pub read_loop-wire :
    (fuel : ℕ) (chunks : List Chunk) (c : Conn) (id : ℕ) (st : Stream)
    → length chunks < fuel
    → c.closed ≡ false
    → All Fits chunks
    → lookup id c.streams ≡ some st
    → lookup id (read_loop fuel (wire chunks) c).streams ≡ some (appended (payloads id chunks) st)
unfolding wire payloads
read_loop-wire zero chunks c id st n open_ fits h = absurd (omega arith)
read_loop-wire (suc fuel) [] c id st n open_ fits h =
    ap (λ (r : Conn). lookup id r.streams) (read_loop_end fuel c)
    ∙ h
    ∙ ap (λ b. some (record st { read_buf = b })) (sym (append-nil st.read_buf))
read_loop-wire (suc fuel) (k ∷ ks) c id st n open_ (fit, fits) h =
    let c' = handle_data k.id k.bytes c in
    let there = lookup-handle_data id k.id k.bytes st c h in
    let rest =
      read_loop-wire fuel ks c' id (if k.id == id then appended k.bytes st else st) (omega arith)
        (handle_data-closed k.id k.bytes c ∙ open_) fits there in
    ap (λ r. lookup id r.streams) (read_loop_data fuel k (wire ks) c fit open_)
    ∙ rest
    ∙ ap some (appended_both (k.id == id) k.bytes (payloads id ks) st)

odd_data : (id : ℕ) (bytes : List ℕ) → id % 2 ≡ 1 → handle_data id bytes new_conn ≡ new_conn
unfolding handle_data new_conn lookup
odd_data id bytes odd = ground arith

open_conn : new_conn.closed ≡ false
unfolding new_conn
open_conn = refl

odd_frame :
    (fuel id : ℕ) (bytes : List ℕ)
    → 1 < fuel
    → length bytes < 2 ^ 32
    → id < 2 ^ 32
    → id % 2 ≡ 1
    → read_loop fuel (frame_bytes id 1 0 bytes) new_conn ≡ new_conn
odd_frame zero id bytes f n small odd = absurd (omega arith)
odd_frame (suc zero) id bytes f n small odd = absurd (omega arith)
odd_frame (suc (suc fuel)) id bytes f n small odd =
    ap (λ r. read_loop (suc (suc fuel)) r new_conn) (sym (append-nil (frame_bytes id 1 0 bytes)))
    ∙ read_loop_data (suc fuel) (record { id = id; bytes = bytes }) [] new_conn (small, n) open_conn
    ∙ ap (read_loop (suc fuel) []) (odd_data id bytes odd)
    ∙ read_loop_end fuel new_conn

-- A stream that one end opens is not there at the other end after its data arrived, and is not announced: the
-- ids are odd, and only data for even ids makes a stream.
pub open_stream-read_loop :
    (fuel : ℕ) (bytes : List ℕ) (c : Conn)
    → 1 < fuel
    → length bytes < 2 ^ 32
    → c.next_id < 2 ^ 32
    → c.next_id % 2 ≡ 1
    → c.closed ≡ false
    → c.sent ≡ []
    → (id : ℕ) × (c' : Conn) × (c'' : Conn) × (open_stream c ≡ ok (id, c'))
      × (stream_write id new_stream bytes c' ≡ ok c'')
      × (read_loop fuel c''.sent new_conn ≡ new_conn)
unfolding open_stream stream_write write_frame
open_stream-read_loop fuel bytes c f n small odd open_ fresh = (
  c.next_id,
  record c { next_id = (c.next_id + 2) % 2 ^ 32; streams = insert c.next_id new_stream c.streams },
  record c {
    next_id = (c.next_id + 2) % 2 ^ 32;
    streams = insert c.next_id new_stream c.streams;
    sent = c.sent ++ frame_bytes c.next_id 1 0 bytes;
  },
  simp open_,
  simp open_,
  ap (λ r. read_loop fuel (r ++ frame_bytes c.next_id 1 0 bytes) new_conn) fresh
      ∙ odd_frame fuel c.next_id bytes f n small odd,
)
