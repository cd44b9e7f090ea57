-- ===== src/Kcp/Segments.antt =====
-- Segments on the wire, and data as segments.
use oiwest_core.Common.{
  ℕ, zero, suc, ◌+◌, ◌-◌, ◌*◌, ◌/◌, ◌%◌, ◌^◌, ◌≤◌, ◌<◌, ◌≡◌, refl, sym, ap, ◌∙◌, inl, inr, ◌⊎◌,
  true, false, List, [], ◌∷◌, ◌++◌, leb, length, take, drop, le32_at, length-append, length-drop,
  append_assoc, ok, panic, Bool-cases, arith, le→leb, le→ltb_false, lt→ltb,
}
use oiwest_core.Common.Copying.{take-append_length, drop-append_length, drop_all, take_past}
use oiwest_core.Kcp.{
  Segment, State, overhead, header_bytes, decode_segment, input_loop, input, accept,
}

-- A segment that fits its fields and counts its data, as it arrives: not yet transmitted.
pub record IsSound (s : Segment) : Type 0 where
  pub conv : s.conv < 2 ^ 32
  pub wnd : s.wnd < 2 ^ 16
  pub ts : s.ts < 2 ^ 32
  pub sn : s.sn < 2 ^ 32
  pub una : s.una < 2 ^ 32
  pub small : length s.body < 2 ^ 32
  pub counted : s.len ≡ length s.body
  pub fresh : s.xmit ≡ 0

abbrev pub AllSound : List Segment → Type 0
AllSound [] = Unit
AllSound (s ∷ q) = IsSound s × AllSound q

abbrev pub wire : Segment → List ℕ
wire s = header_bytes s ++ s.body

-- The segments of a datagram, one behind the other.
pub datagram : List Segment → List ℕ
datagram [] = []
datagram (s ∷ q) = wire s ++ datagram q

-- The session after a list of segments has come in.
pub accept_all : List Segment → State → State
accept_all [] k = k
accept_all (s ∷ q) k = accept_all q (accept s k)

pub length-header_bytes : (s : Segment) → length (header_bytes s) ≡ 24
unfolding header_bytes
length-header_bytes s = refl

le32_back :
    (v : ℕ)
    → v < 2 ^ 32
    → v % 256 + v / 2 ^ 8 % 256 * 256 + (v / 2 ^ 16 % 256 + v / 2 ^ 24 % 256 * 256) * 2 ^ 16 ≡ v
le32_back v h = omega arith

le16_back : (v : ℕ) → v < 2 ^ 16 → v % 256 + v / 256 % 256 * 256 ≡ v
le16_back v h = omega arith

decode_segment_wire :
    (s : Segment) (rest : List ℕ) → IsSound s → decode_segment (header_bytes s ++ rest) s.body ≡ s
unfolding header_bytes decode_segment
decode_segment_wire s rest v =
    rw
      (
        le32_back s.conv v.conv,
        le16_back s.wnd v.wnd,
        le32_back s.ts v.ts,
        le32_back s.sn v.sn,
        le32_back s.una v.una,
        le32_back s.len (omega (arith, v.small, v.counted)),
      )
      (ap (λ x. record s { xmit = x }) (sym v.fresh))

len_field :
    (s : Segment) (rest : List ℕ) → IsSound s → le32_at (header_bytes s ++ rest) 20 ≡ length s.body
unfolding header_bytes
len_field s rest v = le32_back s.len (omega (arith, v.small, v.counted)) ∙ v.counted

-- One round of the loop on a header whose data is there.
input_round :
    (fuel : ℕ) (rest spare : List ℕ) (k : State)
    → overhead ≤ length rest
    → le32_at rest 20 ≤ length (drop overhead rest) + length spare
    → input_loop (suc fuel) rest spare k
      ≡ input_loop fuel
          (drop (le32_at rest 20) (drop overhead rest))
          spare
          (accept (decode_segment rest (take (le32_at rest 20) (drop overhead rest ++ spare))) k)
unfolding input_loop
input_round fuel rest spare k h l =
    rw (le→ltb_false (length rest) overhead h, input_loop, le→leb _ _ l) refl

length-datagram :
    (s : Segment) (q : List Segment)
    → length (datagram (s ∷ q)) ≡ 24 + (length s.body + length (datagram q))
unfolding datagram
length-datagram s q = omega (
  arith,
  length-append (wire s) (datagram q),
  length-append (header_bytes s) s.body,
  length-header_bytes s,
)

-- The loop of Input on the segments of a datagram, with any fuel that covers it.
input_loop-datagram :
    (q : List Segment) (fuel : ℕ) (spare : List ℕ) (k : State)
    → AllSound q
    → length (datagram q) ≤ fuel
    → input_loop fuel (datagram q) spare k ≡ ok (accept_all q k)
unfolding input_loop datagram accept_all
input_loop-datagram [] zero spare k v h = refl
input_loop-datagram [] (suc fuel) spare k v h = refl
input_loop-datagram (s ∷ q) zero spare k (v, vs) h = absurd (omega (arith, length-datagram s q))
input_loop-datagram (s ∷ q) (suc fuel) spare k (v, vs) h =
    let tail : List ℕ = s.body ++ datagram q in
    let size : length (header_bytes s ++ tail) ≡ 24 + length tail =
      length-append (header_bytes s) tail ∙ ap (λ n. n + length tail) (length-header_bytes s) in
    let behind : drop overhead (header_bytes s ++ tail) ≡ tail =
      drop-append_length 24 (header_bytes s) tail (sym (length-header_bytes s)) in
    let fits = length-append s.body (datagram q) in
    rw (append_assoc (header_bytes s) s.body (datagram q)) (
      input_round fuel (header_bytes s ++ tail) spare k (omega arith)
        (rw (len_field s tail v, behind) (omega arith))
      ∙ rw
          (
            len_field s tail v,
            behind,
            append_assoc s.body (datagram q) spare,
            take-append_length (length s.body) s.body (datagram q ++ spare) refl,
            drop-append_length (length s.body) s.body (datagram q) refl,
            decode_segment_wire s tail v,
          )
          (input_loop-datagram q fuel spare (accept s k) vs (omega (arith, length-datagram s q))))

-- Input on a datagram of at least one sound segment takes the segments one after the other, as they
-- were encoded, whatever lies behind the datagram in its array.
pub input-datagram :
    (s : Segment) (q : List Segment) (spare : List ℕ) (k : State)
    → AllSound (s ∷ q)
    → input (datagram (s ∷ q)) spare k ≡ ok (accept_all (s ∷ q) k, true)
unfolding input
input-datagram s q spare k v =
    rw
      (
        le→ltb_false (length (datagram (s ∷ q))) 24 (omega (arith, length-datagram s q)),
        input_loop-datagram (s ∷ q) (length (datagram (s ∷ q))) spare k v (omega arith),
      )
      refl

input_loop_end :
    (fuel : ℕ) (rest spare : List ℕ) (k : State)
    → length rest < overhead
    → input_loop fuel rest spare k ≡ ok k
unfolding input_loop
input_loop_end zero rest spare k h = refl
input_loop_end (suc fuel) rest spare k h = rw (lt→ltb (length rest) overhead h, input_loop) refl

-- The first round, with the fuel that Input gives.
one_round :
    (bytes spare : List ℕ) (k : State)
    → overhead ≤ length bytes
    → le32_at bytes 20 ≤ length (drop overhead bytes) + length spare
    → input_loop (length bytes) bytes spare k
      ≡ input_loop
          (length bytes - 1)
          (drop (le32_at bytes 20) (drop overhead bytes))
          spare
          (accept (decode_segment bytes (take (le32_at bytes 20) (drop overhead bytes ++ spare))) k)
one_round [] spare k h l = elim h [ ]
one_round (b ∷ bytes) spare k h l =
    input_round (length bytes) (b ∷ bytes) spare k h l
    ∙ ap
        (λ f. input_loop f (drop (le32_at (b ∷ bytes) 20) (drop overhead (b ∷ bytes))) spare (
          accept
            (decode_segment (b ∷ bytes)
              (take (le32_at (b ∷ bytes) 20) (drop overhead (b ∷ bytes) ++ spare)))
            k))
        {y = length (b ∷ bytes) - 1} (omega arith)

overrun :
    (bytes spare : List ℕ) (k : State)
    → overhead ≤ length bytes
    → leb (le32_at bytes 20) (length (drop overhead bytes) + length spare) ≡ false
    → input_loop (length bytes) bytes spare k ≡ panic
unfolding input_loop
overrun [] spare k h e = elim h [ ]
overrun (b ∷ bytes) spare k h e =
    rw (le→ltb_false (length (b ∷ bytes)) overhead h, input_loop, e) refl

-- Input on a datagram of 24 bytes or more panics if the length field of its first segment says more
-- than the array behind the header holds; if it says no more than that, but more than the datagram
-- holds, the data of the segment goes on with what lies behind the datagram.
pub input_overrun :
    (bytes spare : List ℕ) (k : State)
    → overhead ≤ length bytes
    → length bytes < overhead + le32_at bytes 20
    → ((length bytes + length spare < overhead + le32_at bytes 20) × (input bytes spare k ≡ panic))
      ⊎ ((overhead + le32_at bytes 20 ≤ length bytes + length spare)
          × (input bytes spare k
              ≡ ok (
                accept
                    (decode_segment bytes (
                      drop overhead bytes
                      ++ take (overhead + le32_at bytes 20 - length bytes) spare))
                    k,
                true,
              )))
unfolding input input_loop
input_overrun bytes spare k h l =
    let n = le32_at bytes 20 in
    let behind = drop overhead bytes in
    let size = length-drop overhead bytes in
    elim (Bool-cases (leb n (length behind + length spare))) [
      | inl fits ↦ inr (
        ground arith,
        rw
            (
              le→ltb_false (length bytes) overhead h,
              one_round bytes spare k h (ground arith),
              take_past n behind spare (omega arith),
              drop_all n behind (omega arith),
              input_loop_end (length bytes - 1) [] spare _ (omega arith),
            )
            (ap (λ m. ok (accept (decode_segment bytes (behind ++ take m spare)) k, true))
              {x = n - length behind} {y = overhead + n - length bytes} (omega arith)),
      )
      | inr over ↦ inl (
        ground arith,
        rw (le→ltb_false (length bytes) overhead h, overrun bytes spare k h over) refl,
      )
    ]
