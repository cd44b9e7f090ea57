-- ===== src/Buf/Life.antt =====
-- The writes of a whole sequence of calls on a buffer.
use oiwest_core.Common.{
  le→leb, ==_iff, ◌==◌, copy_at, length-drop, ℕ, ◌+◌, ◌-◌, ◌≤◌, List, [], ◌∷◌, length, Result, ok,
  err, panic, arith, min, Bool-cases, inl, inr,
}
use oiwest_core.Common.Copying.{length-copy_at}
use oiwest_core.Buf.{Bool, Buffer, Error, write, read}
use oiwest_core.Buf.Split.{IsValid, room}
use oiwest_core.Buf.Contents.{read_empty, read_some, moved-IsValid}

-- A call that a user of the buffer makes.
pub data Call : Type 0 where
  put : List ℕ → Call
  get : ℕ → Call

-- The buffer after a call; a failing call leaves it.
after_put : Buffer → Result Error (Buffer × ℕ × Bool) → Buffer × ℕ
after_put b (ok (b', n, _)) = (b', n)
after_put b (err e) = (b, 0)
after_put b panic = (b, 0)

after_get : Buffer → Result Error (Buffer × List ℕ) → Buffer
after_get b (ok (b', xs)) = b'
after_get b (err e) = b
after_get b panic = b

-- The number of bytes that the writes of a sequence of calls accept.
pub accepted : Buffer → List Call → ℕ
unfolding after_put after_get
accepted b [] = 0
accepted b (put src ∷ calls) = let (b', n) = after_put b (write src b) in n + accepted b' calls
accepted b (get size ∷ calls) = accepted (after_get b (read size b)) calls

put_step :
    (src : List ℕ) (b : Buffer)
    → IsValid b
    → let r = after_put b (write src b) in IsValid r.0 × (r.1 + length (room r.0) ≤ length (room b))
unfolding write after_put
put_step src b v =
    let n = min (length b.bytes - b.end) (length src) in
    let same = length-copy_at b.bytes b.end src in
    let before = length-drop b.end b.bytes in
    let after = length-drop (b.end + n) (copy_at b.bytes b.end src) in
    rw (le→leb b.end (length b.bytes) v.bounded)
      (record { ordered = omega arith; bounded = omega arith }, omega arith)

get_step :
    (size : ℕ) (b : Buffer)
    → IsValid b
    → let b' = after_get b (read size b) in IsValid b' × (length (room b') ≤ length (room b))
unfolding after_get
get_step size b v = elim (Bool-cases (b.start == b.end)) [
  | inl e ↦ rw (read_empty size b ((==_iff _ _).0 e)) (v, omega arith)
  | inr e ↦ rw (read_some size b v e) (moved-IsValid size b v, omega arith)
]

-- Whatever is written and read, in whatever order, the writes accept no more bytes than there was
-- room for at the start: the room of bytes that were read is never used again.
pub accepted-le-room :
    (calls : List Call) (b : Buffer) → IsValid b → accepted b calls ≤ length (room b)
unfolding accepted
accepted-le-room [] b v = omega arith
accepted-le-room (put src ∷ calls) b v =
    let (valid, less) = put_step src b v in omega (arith, accepted-le-room calls _ valid)
accepted-le-room (get size ∷ calls) b v =
    let (valid, less) = get_step size b v in omega (arith, accepted-le-room calls _ valid)
