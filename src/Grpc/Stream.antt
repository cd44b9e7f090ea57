-- ===== src/Grpc/Stream.antt =====
-- The frames of a connection as a sequence of bytes.
use oiwest_core.Common.{
  subst, ℕ, zero, suc, ◌+◌, ◌-◌, ◌*◌, ◌^◌, ◌≤◌, ◌<◌, ◌≡◌, refl, sym, ap, ◌∙◌, inl, inr, ◌⊎◌, false,
  List, [], ◌∷◌, ◌++◌, length, length-append, length-take, length-drop, take, drop, u32_at, be32,
  copy_at, length-replicate, take-append-drop, append_assoc, ltb, le→ltb_false, Bool-cases, ok, err,
  arith, min,
}
use oiwest_core.Common.Window.{window, moved, window_split}
use oiwest_core.Common.Copying.{take-append_length, drop-append_length, take-min, copy_at-zero}
use oiwest_core.Grpc.{
  eof, Conn, read_full, hold, room_for, read_frame, read_open, read, frame_bytes, write_loop, write,
  max_data_size,
}

abbrev pub pending : Conn → List ℕ
pending c = window c.read_buf c.read_pos c.read_len

pub record IsOpen (c : Conn) : Type 0 where
  pub bounded : c.read_pos + c.read_len ≤ length c.read_buf
  pub not_closed : c.closed ≡ false

-- A stream of frames that carry these bytes, none of them empty.
pub data Carries : List ℕ → List ℕ → Type 0 where
  nothing : Carries [] []
  frame :
      {bytes stream : List ℕ} (chunk : List ℕ)
      → 0 < length chunk
      → length chunk < 2 ^ 32
      → Carries bytes stream
      → Carries (chunk ++ bytes) (frame_bytes chunk ++ stream)

write_loop-Carries :
    (fuel : ℕ) (bytes : List ℕ) → length bytes ≤ fuel → Carries bytes (write_loop fuel bytes)
unfolding write_loop
write_loop-Carries zero [] h = nothing
write_loop-Carries zero (b ∷ bs) h = absurd (omega arith)
write_loop-Carries (suc fuel) [] h = nothing
write_loop-Carries (suc fuel) (b ∷ bs) h =
    let chunk = take max_data_size (b ∷ bs) in
    let n = length-take max_data_size (b ∷ bs) in
    let n' = length-drop max_data_size (b ∷ bs) in
    let made =
      frame chunk (omega (arith, n)) (omega (arith, n))
        (write_loop-Carries fuel (drop max_data_size (b ∷ bs)) (omega (arith, n', h))) in
    subst (λ r. Carries r (frame_bytes chunk ++ write_loop fuel (drop max_data_size (b ∷ bs))))
      (take-append-drop max_data_size (b ∷ bs)) made

read_full-append : (n : ℕ) (xs ys : List ℕ) → n ≡ length xs → read_full n (xs ++ ys) ≡ ok (xs, ys)
unfolding read_full
read_full-append zero [] ys h = refl
read_full-append zero (x ∷ xs) ys h = absurd (omega arith)
read_full-append (suc n) [] ys h = absurd (omega arith)
read_full-append (suc n) (x ∷ xs) ys h = rw (
  le→ltb_false (length (xs ++ ys)) n (omega (arith, length-append xs ys)),
  take-append_length n xs ys (omega arith),
  drop-append_length n xs ys (omega arith),
)

room : (len : ℕ) (buf : List ℕ) → len ≤ length (room_for len buf)
unfolding room_for
room len buf = elim (Bool-cases (ltb (length buf) len)) [
  | inl small ↦ rw small (omega (arith, length-replicate (len + 64 * 1024) zero))
  | inr big ↦ rw big (ground arith)
]

-- A frame behind its header.
read_frame_lem :
    (size : ℕ) (chunk rest : List ℕ) (c : Conn)
    → IsOpen c
    → (c' : Conn) × (read_frame size (length chunk) c (chunk ++ rest)
        ≡ ok (take size chunk, c', rest))
      × IsOpen c'
      × (take size chunk ++ pending c' ≡ chunk)
unfolding read_frame hold
read_frame_lem size chunk rest c v =
    let len = length chunk in
    let n = min size len in
    let buf = copy_at (room_for len c.read_buf) 0 chunk in
    let filled = copy_at-zero (room_for len c.read_buf) chunk (room len c.read_buf) in
    let behind : List ℕ = drop len (room_for len c.read_buf) in
    let front : take len buf ≡ chunk =
      ap (take len) filled ∙ take-append_length len chunk behind refl in
    let all : window buf 0 len ≡ chunk =
      ap (take (0 + len - 0)) filled
      ∙ take-append_length (0 + len - 0) chunk behind (omega arith) in
    let fits : 0 + len ≤ length buf = omega (arith, ap length filled, length-append chunk behind) in
    let (b, e) = window_split buf 0 len n (omega arith) fits in
    (
      hold buf len n c,
      rw (read_full-append len chunk rest refl, front, take-min size chunk) refl,
      record { bounded = b; not_closed = v.not_closed },
      rw (all, take-min size chunk) at e,
    )

header_lem :
    (chunk rest : List ℕ)
    → length chunk < 2 ^ 32
    → (read_full 5 (frame_bytes chunk ++ rest) ≡ ok (be32 (length chunk) ++ 0 ∷ [], chunk ++ rest))
      × (u32_at (be32 (length chunk) ++ 0 ∷ []) 0 ≡ length chunk)
header_lem chunk rest h =
    (read_full-append 5 (be32 (length chunk) ++ 0 ∷ []) (chunk ++ rest) refl, omega (arith, h))

still_open :
    (size : ℕ) (c : Conn) (stream : List ℕ)
    → IsOpen c
    → read size c stream ≡ read_open size c stream
unfolding read
still_open size c stream v = rw v.not_closed refl

not_empty : (size : ℕ) (xs : List ℕ) → 0 < length xs → 0 < size → 0 < length (take size xs)
not_empty size xs h p = omega (arith, length-take size xs, h, p)

-- Read on an open connection and a stream of frames, none of them empty, answers at most as many
-- bytes as were asked for and one at least if any were; they come off the front of what the
-- connection holds and the frames still carry, and the rest is what is held and carried then. At the end of
-- the stream it answers EOF.
pub read-Carries :
    {bytes stream : List ℕ} (size : ℕ) (c : Conn)
    → IsOpen c
    → Carries bytes stream
    → ((pending c ≡ []) × (bytes ≡ []) × (read size c stream ≡ err eof))
      ⊎ ((out : List ℕ) × (c' : Conn) × (bytes' : List ℕ) × (stream' : List ℕ) × (read size c stream
            ≡ ok (out, c', stream'))
          × IsOpen c'
          × Carries bytes' stream'
          × (length out ≤ size)
          × (0 < size → 0 < length out)
          × (out ++ (pending c' ++ bytes') ≡ pending c ++ bytes))
unfolding read_open read_full
read-Carries {bytes} {stream} size c v w = elim (Bool-cases (ltb 0 c.read_len)) [
  | inl held ↦
      let n = min size c.read_len in
      let some_ : 0 < c.read_len = ground arith in
      let (b, e) = window_split c.read_buf c.read_pos c.read_len n (omega arith) v.bounded in
      let size_ = length-take n (pending c) in
      let size' = length-take (c.read_pos + c.read_len - c.read_pos) (drop c.read_pos c.read_buf) in
      let back = length-drop c.read_pos c.read_buf in
      let c' : Conn = record c {
        read_pos = moved c.read_pos c.read_len n;
        read_len = c.read_len - n;
      } in
      inr (
        take n (pending c),
        c',
        bytes,
        stream,
        still_open size c stream v ∙ rw (held, read_open) refl,
        record { bounded = b; not_closed = v.not_closed },
        w,
        omega (arith, size_),
        (λ p. omega (arith, p, size_, size', back, some_, v.bounded)),
        sym (append_assoc (take n (pending c)) (pending c') bytes) ∙ ap (λ r. r ++ bytes) e,
      )
  | inr bare ↦ fresh w bare (ap (λ k. take k (drop c.read_pos c.read_buf)) {y = 0} (ground arith))
]
  where
    fresh :
        {bytes stream : List ℕ}
        → Carries bytes stream
        → ltb 0 c.read_len ≡ false
        → pending c ≡ []
        → ((pending c ≡ []) × (bytes ≡ []) × (read size c stream ≡ err eof))
          ⊎ ((out : List ℕ) × (c' : Conn) × (bytes' : List ℕ) × (stream' : List ℕ) × (read size c
                  stream
                ≡ ok (out, c', stream'))
              × IsOpen c'
              × Carries bytes' stream'
              × (length out ≤ size)
              × (0 < size → 0 < length out)
              × (out ++ (pending c' ++ bytes') ≡ pending c ++ bytes))
    fresh nothing bare none_ = inl (none_, refl, still_open size c [] v ∙ rw (bare, read_open) refl)
    fresh (frame {bytes} {stream} chunk p l w) bare none_ =
        let (c', e, v', parts) = read_frame_lem size chunk stream c v in
        let (got, len) = header_lem chunk stream l in
        inr (
          take size chunk,
          c',
          bytes,
          stream,
          still_open size c (frame_bytes chunk ++ stream) v ∙ rw (bare, got, len, read_open) e,
          v',
          w,
          omega (arith, length-take size chunk),
          (λ q. not_empty size chunk p q),
          sym (append_assoc (take size chunk) (pending c') bytes)
              ∙ ap (λ r. r ++ bytes) parts
              ∙ ap (λ r. r ++ (chunk ++ bytes)) (sym none_),
        )

-- Write on an open connection sends frames that carry exactly the bytes, whatever their number.
pub write-Carries :
    (bytes : List ℕ) (c : Conn)
    → c.closed ≡ false
    → (stream : List ℕ) × (write bytes c ≡ ok stream) × Carries bytes stream
unfolding write
write-Carries bytes c h = (
  write_loop (length bytes) bytes,
  rw h refl,
  write_loop-Carries (length bytes) bytes (omega arith),
)
