-- ===== src/Buf/Split.antt =====
-- A valid buffer is what was read, what is unread, and room.
use oiwest_core.Common.{
  ℕ, ◌+◌, ◌-◌, ◌≤◌, ◌≡◌, refl, sym, ◌∙◌, ap, List, [], ◌∷◌, ◌++◌, length, length-take, length-drop,
  take, drop, take-append-drop, copy_at, arith,
}
use oiwest_core.Common.Copying.{take-append_length, drop-append_length, drop-drop}
use oiwest_core.Buf.{Buffer, contents}

-- The indices are in order.
pub record IsValid (b : Buffer) : Type 0 where
  pub ordered : b.start ≤ b.end
  pub bounded : b.end ≤ length b.bytes

-- What is behind the unread bytes.
abbrev pub room : Buffer → List ℕ
room b = drop b.end b.bytes

pub split : (b : Buffer) → IsValid b → b.bytes ≡ take b.start b.bytes ++ (contents b ++ room b)
unfolding contents
split b v =
    let n = b.end - b.start in
    let rest : drop b.end b.bytes ≡ drop n (drop b.start b.bytes) =
      ap (λ k. drop k b.bytes) {x = b.end} {y = b.start + n} (omega arith)
      ∙ sym (drop-drop n b.start b.bytes) in
    sym (rw (rest, take-append-drop n (drop b.start b.bytes)) (take-append-drop b.start b.bytes))

pub length-contents : (b : Buffer) → IsValid b → length (contents b) ≡ b.end - b.start
unfolding contents
length-contents b v =
    omega (arith, length-take (b.end - b.start) (drop b.start b.bytes), length-drop b.start b.bytes)

-- The contents of a buffer that is built in three parts.
pub contents_of :
    (b : Buffer) (pre mid suf : List ℕ)
    → b.bytes ≡ pre ++ (mid ++ suf)
    → b.start ≡ length pre
    → b.end ≡ length pre + length mid
    → contents b ≡ mid
unfolding contents
contents_of b pre mid suf e s t =
    rw (e, drop-append_length b.start pre (mid ++ suf) s)
      (take-append_length (b.end - b.start) mid suf (omega arith))

-- copy at the start of a slice that may be shorter than the source.
pub copy_at-cut :
    (mid src : List ℕ) → copy_at mid 0 src ≡ take (length mid) src ++ drop (length src) mid
copy_at-cut [] [] = refl
copy_at-cut [] (y ∷ src) = refl
copy_at-cut (x ∷ mid) [] = refl
copy_at-cut (x ∷ mid) (y ∷ src) = ap (λ r. y ∷ r) (copy_at-cut mid src)
