-- ===== src/Grpc/Delivery.antt =====
-- What a reader that reads until the end gets of what was written.
use oiwest_core.Common.{
  ℕ, zero, suc, ◌<◌, ◌≡◌, refl, ap, ◌∙◌, inl, inr, List, [], ◌++◌, length, length-append, ok, err,
  panic, arith, Result,
}
use oiwest_core.Grpc.{Error, eof, Conn, new_conn, read, write}
use oiwest_core.Grpc.Stream.{pending, IsOpen, Carries, read-Carries, write-Carries}

-- Bytes in front of those that were read, and how the reading ended.
abbrev pub behind : List ℕ → List ℕ × Result Error (Unit {0}) → List ℕ × Result Error (Unit {0})
behind out (bytes, end) = (out ++ bytes, end)

-- Reads of one size until one fails, on fuel, as io.Copy makes them: the bytes, and the error or the
-- panic that ended them.
abbrev pub drain : ℕ → ℕ → Conn → List ℕ → List ℕ × Result Error (Unit {0})
drain zero size c stream = ([], ok tt)
drain (suc fuel) size c stream = elim (read size c stream) [
  | ok (out, c', stream') ↦ behind out (drain fuel size c' stream')
  | err e ↦ ([], err e)
  | panic ↦ ([], panic)
]

-- Reads of at least one byte get all that is held and carried, if there is one more of them than
-- bytes.
drain-Carries :
    {bytes stream : List ℕ} (fuel size : ℕ) (c : Conn)
    → 0 < size
    → IsOpen c
    → Carries bytes stream
    → length (pending c ++ bytes) < fuel
    → drain fuel size c stream ≡ (pending c ++ bytes, err eof)
drain-Carries zero size c p v w h = absurd (omega arith)
drain-Carries {bytes} {stream} (suc fuel) size c p v w h = elim (read-Carries size c v w) [
  | inl (none_, done, e) ↦ rw (e, none_, done, drain) refl
  | inr (out, c', bytes', stream', e, v', w', _, some_, parts) ↦
      let n = length-append out (pending c' ++ bytes') in
      let rest =
        drain-Carries {bytes = bytes'} {stream = stream'} fuel size c' p v' w'
          (omega (arith, n, ap length parts, some_ p, h)) in
      rw (e, drain) (ap (behind out) rest ∙ ap (λ r. (r, err eof)) parts)
]

pub new_conn-IsOpen : IsOpen new_conn
unfolding new_conn
new_conn-IsOpen = record { bounded = omega arith; not_closed = refl }

-- What one end of a connection writes the other end gets whole, and then the error EOF,
-- with reads of any size but 0 and one more of them than bytes.
pub drain-write :
    (bytes : List ℕ) (fuel size : ℕ)
    → 0 < size
    → length bytes < fuel
    → (stream : List ℕ) × (write bytes new_conn ≡ ok stream)
      × (drain fuel size new_conn stream ≡ (bytes, err eof))
unfolding new_conn
drain-write bytes fuel size p h =
    let (stream, e, w) = write-Carries bytes new_conn refl in
    (stream, e, drain-Carries fuel size new_conn p new_conn-IsOpen w h)
