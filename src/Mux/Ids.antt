-- ===== src/Mux/Ids.antt =====
-- The ids of the streams of a session.
use oiwest_core.Common.{
  ◌∙◌, bind_ok, ap, ℕ, suc, ◌+◌, ◌%◌, ◌^◌, ◌≤◌, ◌<◌, ◌≡◌, refl, ◌⊎◌, inl, inr, Bool-cases, List, [],
  ◌∷◌, ◌==◌, ==_iff, length, none, some, ok, arith, Option-cases,
}
use oiwest_core.Buf.{Buffer}
use oiwest_core.Mux.Assoc.{Table, lookup, insert, lookup-insert, length-insert_new}
use oiwest_core.Mux.{
  Session, Stream, new_session, new_stream, table_of, store, open_stream, handle_data, accept_data,
  announce, deliver,
}

-- Every odd id of the table is below the next one.
abbrev pub Owned : ℕ → Table Stream → Type 0
Owned n [] = Unit
Owned n ((k, st) ∷ t) = ((k % 2 ≡ 0) ⊎ (k < n)) × Owned n t

pub record IsValid (s : Session) : Type 0 where
  pub odd : s.next_id % 2 ≡ 1
  pub owned : Owned s.next_id (table_of s.streams)

Owned-lookup : (n k : ℕ) (t : Table Stream) → Owned n t → k % 2 ≡ 1 → n ≤ k → lookup k t ≡ none
unfolding lookup
Owned-lookup n k [] o h l = refl
Owned-lookup n k ((j, st) ∷ t) (o, os) h l = elim (Bool-cases (j == k)) [
  | inl e ↦ absurd (omega (arith, (==_iff j k).0 e, o))
  | inr e ↦ rw e (Owned-lookup n k t os h l)
]

Owned-mono : (m n : ℕ) (t : Table Stream) → m ≤ n → Owned m t → Owned n t
Owned-mono m n [] h o = tt
Owned-mono m n ((j, st) ∷ t) h (o, os) = (omega (arith, o), Owned-mono m n t h os)

Owned-insert :
    (n k : ℕ) (v : Stream) (t : Table Stream)
    → (k % 2 ≡ 0) ⊎ (k < n)
    → Owned n t
    → Owned n (insert k v t)
unfolding insert
Owned-insert n k v [] h o = (h, tt)
Owned-insert n k v ((j, w) ∷ t) h (o, os) = elim (Bool-cases (j == k)) [
  | inl e ↦ rw e (h, os)
  | inr e ↦ rw e (o, Owned-insert n k v t h os)
]

-- A new session is valid.
pub new_session-IsValid : (max : ℕ) → IsValid (new_session max)
unfolding new_session
new_session-IsValid max = record { odd = refl; owned = tt }

abbrev pub opened : Buffer → Table Stream → Session → Session
opened b t s = record s {
  streams = some (insert s.next_id (new_stream b) t);
  next_id = (s.next_id + 2) % 2 ^ 32;
}

pub open_stream_ok :
    (b : Buffer) (s s' : Session) (id : ℕ)
    → open_stream b s ≡ ok (id, s')
    → (t : Table Stream) × (s.streams ≡ some t) × (id ≡ s.next_id) × (s' ≡ opened b t s)
unfolding open_stream store
open_stream_ok b s s' id e = elim (Option-cases s.streams) [
  | inl n ↦ absurd (ground arith)
  | inr (t, n) ↦ (t, n, ground arith, ground arith)
]

-- OpenStream on a valid session, before its ids wrap at 2^32, hands out an odd id that no stream
-- of the session has, enters the new stream under it, and leaves the session valid.
pub open_stream_lem :
    (b : Buffer) (s s' : Session) (id : ℕ)
    → IsValid s
    → s.next_id + 2 < 2 ^ 32
    → open_stream b s ≡ ok (id, s')
    → (id % 2 ≡ 1)
      × (lookup id (table_of s.streams) ≡ none)
      × (lookup id (table_of s'.streams) ≡ some (new_stream b))
      × (length (table_of s'.streams) ≡ suc (length (table_of s.streams)))
      × IsValid s'
open_stream_lem b s s' id v h e =
    let (t, filled, named, made) = open_stream_ok b s s' id e in
    let table : table_of s.streams ≡ t = ap table_of filled in
    let owned : Owned s.next_id t = rw table at v.owned in
    let fresh : lookup s.next_id t ≡ none =
      Owned-lookup s.next_id s.next_id t owned v.odd (omega arith) in
    rw (named, made, table)
      (
        v.odd,
        fresh,
        rw (lookup-insert, (==_iff s.next_id s.next_id).1 refl) refl,
        length-insert_new s.next_id (new_stream b) t fresh,
        record {
          odd = omega (arith, v.odd);
          owned =
              Owned-insert _ s.next_id (new_stream b) t (inr (omega arith))
                (Owned-mono s.next_id _ t (omega arith) owned);
        },
      )

-- Between two sessions of this code no stream is ever announced: the id of a stream that a peer
-- opens is odd, and handleData drops data for an odd id that it does not have.
pub peer_never_announced :
    (b b' : Buffer) (p p' q : Session) (id : ℕ) (payload : List ℕ)
    → IsValid p
    → p.next_id + 2 < 2 ^ 32
    → open_stream b p ≡ ok (id, p')
    → lookup id (table_of q.streams) ≡ none
    → handle_data b' id payload q ≡ ok q
unfolding handle_data
peer_never_announced b b' p p' q id payload v h e n =
    let odd : id % 2 ≡ 1 = (open_stream_lem b p p' id v h e).0 in ground arith

Owned-of_lookup :
    (n k : ℕ) (t : Table Stream) {v : Stream}
    → Owned n t
    → lookup k t ≡ some v
    → (k % 2 ≡ 0) ⊎ (k < n)
unfolding lookup
Owned-of_lookup n k [] o e = absurd (ground arith)
Owned-of_lookup n k ((j, w) ∷ t) {v} (o, os) e = elim (Bool-cases (j == k)) [
  | inl h ↦ rw ((==_iff j k).0 h) at o
  | inr h ↦ Owned-of_lookup n k t {v = v} os (ground arith)
]

store_ok :
    (id : ℕ) (st : Stream) (s s' : Session)
    → store id st s ≡ ok s'
    → (table_of s'.streams ≡ insert id st (table_of s.streams))
      × (s'.next_id ≡ s.next_id)
      × (s'.max_streams ≡ s.max_streams)
      × (s'.closed ≡ s.closed)
unfolding store
store_ok id st s s' e = elim (Option-cases s.streams) [
  | inl n ↦ absurd (ground arith)
  | inr (t, n) ↦ (ground arith, ground arith, ground arith, ground arith)
]

announce_keeps :
    (id : ℕ) (s : Session)
    → ((announce id s).streams ≡ s.streams)
      × ((announce id s).next_id ≡ s.next_id)
      × ((announce id s).max_streams ≡ s.max_streams)
      × ((announce id s).closed ≡ s.closed)
unfolding announce
announce_keeps id s = ground arith

-- A session whose table differs in one entry, of an id that was there or is even.
pub record Entered (id : ℕ) (s s' : Session) : Type 0 where
  pub stream : Stream
  pub known : ((st : Stream) × (lookup id (table_of s.streams) ≡ some st)) ⊎ (id % 2 ≡ 0)
  pub table : table_of s'.streams ≡ insert id stream (table_of s.streams)
  pub next : s'.next_id ≡ s.next_id
  pub limit : s'.max_streams ≡ s.max_streams
  pub flag : s'.closed ≡ s.closed

-- What handleData does to the table.
pub handle_data_ok :
    (b : Buffer) (id : ℕ) (payload : List ℕ) (s s' : Session)
    → handle_data b id payload s ≡ ok s'
    → (s' ≡ s) ⊎ Entered id s s'
unfolding handle_data accept_data
handle_data_ok b id payload s s' e = elim (Option-cases (lookup id (table_of s.streams))) [
  | inr (st, there) ↦
      let (st', _, stored) = bind_ok (deliver payload st) _ (rw (there, handle_data) at e) in
      let (t, n, m, c) = store_ok id st' s s' stored in
      inr
        (record { stream = st'; known = inl (st, there); table = t; next = n; limit = m; flag = c })
  | inl new ↦ elim (Bool-cases (id % 2 == 0)) [
    | inl even ↦
        let (st, _, more) =
          bind_ok (deliver payload (new_stream b)) _ (rw (new, handle_data, even) at e) in
        let (s1, stored, last) = bind_ok (store id st s) _ more in
        let (t, n, m, c) = store_ok id st s s1 stored in
        let (t', n', m', c') = announce_keeps id s1 in
        let same : s' ≡ announce id s1 = cc last in
        inr (
          rw same (record {
            stream = st;
            known = inr ((==_iff _ _).0 even);
            table = ap table_of t' ∙ t;
            next = n' ∙ n;
            limit = m' ∙ m;
            flag = c' ∙ c;
          }))
    | inr odd ↦ inl (ground arith)
  ]
]

-- handleData keeps a session valid, whatever stream the data is for.
pub handle_data-IsValid :
    (b : Buffer) (id : ℕ) (payload : List ℕ) (s s' : Session)
    → IsValid s
    → handle_data b id payload s ≡ ok s'
    → IsValid s'
handle_data-IsValid b id payload s s' v e = elim (handle_data_ok b id payload s s' e) [
  | inl same ↦ rw same v
  | inr c ↦ record {
    odd = rw c.next v.odd;
    owned =
        rw (c.next, c.table)
          (Owned-insert s.next_id id c.stream (table_of s.streams) (entry c) v.owned);
  }
]
  where
    entry : Entered id s s' → (id % 2 ≡ 0) ⊎ (id < s.next_id)
    entry c = elim c.known [
      | inl (st, there) ↦ Owned-of_lookup s.next_id id (table_of s.streams) v.owned there
      | inr even ↦ inl even
    ]
