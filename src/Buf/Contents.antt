-- ===== src/Buf/Contents.antt =====
-- The operations of the buffer as operations on the unread bytes.
use oiwest_core.Common.{
  ◌==◌, ==_iff, Bool-cases, inl, inr, ◌⊎◌, ℕ, ◌+◌, ◌-◌, ◌≡◌, refl, sym, ◌∙◌, ap, false, List, [],
  ◌++◌, length, length-append, length-take, length-drop, take, drop, take-append-drop, copy_at,
  append_assoc, ltb, le→leb, ok, err, min, arith,
}
use oiwest_core.Common.Copying.{take-min, copy_at-skip, length-copy_at}
use oiwest_core.Buf.{Buffer, eof, contents, write, read}
use oiwest_core.Buf.Split.{IsValid, room, split, length-contents, contents_of, copy_at-cut}

module _ (b : Buffer) (v : IsValid b) where
  pub length-front : length (take b.start b.bytes) ≡ b.start
  length-front = omega (arith, length-take b.start b.bytes)

  pub length-room : length (room b) ≡ length b.bytes - b.end
  length-room = length-drop b.end b.bytes

  -- A write at the end leaves the read part and the contents.
  pub written :
      (src : List ℕ)
      → copy_at b.bytes b.end src
        ≡ take b.start b.bytes
          ++ ((contents b ++ take (length (room b)) src) ++ drop (length src) (room b))
  written src =
      ap (λ xs. copy_at xs b.end src)
        (split b v ∙ sym (append_assoc (take b.start b.bytes) (contents b) (room b)))
      ∙ copy_at-skip (take b.start b.bytes ++ contents b) (room b) b.end 0 src (
          omega (
            arith,
            length-front,
            length-contents b v,
            length-append (take b.start b.bytes) (contents b),
          ))
      ∙ rw copy_at-cut (simp append_assoc)

-- Write appends to the contents as many bytes as there is room for, reports their number and
-- whether it is short of the source, and keeps the buffer valid.
pub write_lem :
    (src : List ℕ) (b : Buffer)
    → IsValid b
    → (b' : Buffer) × (write src b
        ≡ ok (
          b',
          min (length (room b)) (length src),
          ltb (min (length (room b)) (length src)) (length src),
        ))
      × IsValid b'
      × (contents b' ≡ contents b ++ take (length (room b)) src)
unfolding write
write_lem src b v =
    let n = min (length (room b)) (length src) in
    let b' : Buffer = record b { bytes = copy_at b.bytes b.end src; end = b.end + n } in
    let front = length-front b v in
    let all = length-contents b v in
    let back = length-room b v in
    let cut = length-take (length (room b)) src in
    (
      b',
      rw (le→leb b.end (length b.bytes) v.bounded, back) refl,
      record { ordered = omega arith; bounded = omega (arith, length-copy_at b.bytes b.end src) },
      contents_of b' (take b.start b.bytes) _ _ (written b v src) (sym front)
          (omega (arith, length-append (contents b) (take (length (room b)) src))),
    )

nothing_left : (b : Buffer) → b.start ≡ b.end → contents b ≡ []
unfolding contents
nothing_left b e =
    ap (λ k. take k (drop b.start b.bytes)) {x = b.end - b.start} {y = 0} (omega arith)

pub read_empty : (size : ℕ) (b : Buffer) → b.start ≡ b.end → read size b ≡ err eof
unfolding read
read_empty size b e = ground arith

abbrev pub moved : ℕ → Buffer → Buffer
moved size b = record b { start = b.start + min size (b.end - b.start) }

pub moved-IsValid : (size : ℕ) (b : Buffer) → IsValid b → IsValid (moved size b)
moved-IsValid size b v = omega arith

pub read_some :
    (size : ℕ) (b : Buffer)
    → IsValid b
    → (b.start == b.end) ≡ false
    → read size b ≡ ok (moved size b, take (min size (b.end - b.start)) (contents b))
unfolding read contents
read_some size b v e = ground arith

contents-moved :
    (size : ℕ) (b : Buffer) → IsValid b → contents (moved size b) ≡ drop size (contents b)
contents-moved size b v =
    contents_of (moved size b) (take b.start b.bytes ++ take size (contents b))
      (drop size (contents b)) (room b)
      (split b v
        ∙ rw
            (
              append_assoc,
              ← append_assoc (take size (contents b)) (drop size (contents b)) (room b),
              take-append-drop size (contents b),
            )
            refl)
      (omega (
        arith,
        length-front b v,
        length-take size (contents b),
        length-contents b v,
        length-append (take b.start b.bytes) (take size (contents b)),
      ))
      (omega (
        arith,
        length-front b v,
        length-take size (contents b),
        length-contents b v,
        length-drop size (contents b),
        length-append (take b.start b.bytes) (take size (contents b)),
      ))

-- Read on a buffer that is not empty takes bytes off the front of the contents, as many as the
-- target holds, and keeps the buffer valid; on an empty one it answers EOF.
pub read_lem :
    (size : ℕ) (b : Buffer)
    → IsValid b
    → ((contents b ≡ []) × (read size b ≡ err eof))
      ⊎ ((b' : Buffer) × (read size b ≡ ok (b', take size (contents b)))
          × IsValid b'
          × (contents b' ≡ drop size (contents b)))
read_lem size b v = elim (Bool-cases (b.start == b.end)) [
  | inl e ↦ inl (nothing_left b ((==_iff _ _).0 e), read_empty size b ((==_iff _ _).0 e))
  | inr e ↦ inr (moved size b, taken e, moved-IsValid size b v, contents-moved size b v)
]
  where
    taken : (b.start == b.end) ≡ false → read size b ≡ ok (moved size b, take size (contents b))
    taken e =
        read_some size b v e
        ∙ ap (λ xs. ok (moved size b, xs))
            (ap (λ n. take (min size n) (contents b)) (sym (length-contents b v))
              ∙ take-min size (contents b))
