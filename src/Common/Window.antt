-- ===== src/Common/Window.antt =====
-- A window of a buffer: its bytes from a position on, of which a reader takes some off the front.
use Prim.Native.Nat.{ℕ, ◌+◌, ◌-◌, ◌≤◌}
use mathlib.Core.Path.{◌≡◌, sym, ap, ◌∙◌}
use mathlib.Core.Logic.{inl, inr}
use mathlib.Core.List.{List, [], ◌++◌, append-nil}
use native.Mathlib.Omega.{arith}
use oiwest_core.Common.Tests.{◌==◌, if◌then◌else◌, Bool-cases}
use oiwest_core.Common.Lists.{length, take, drop, length-take, length-drop, take-append-drop}
use oiwest_core.Common.Bytes.{slice}
use oiwest_core.Common.Copying.{take_all, drop-drop, drop-take}

abbrev pub window : List ℕ → ℕ → ℕ → List ℕ
window buf pos len = slice buf pos (pos + len)

-- Where a window starts after so many of its bytes are taken.
abbrev pub moved : ℕ → ℕ → ℕ → ℕ
moved pos len n = if len - n == 0 then 0 else pos + n

pub window_split :
    (buf : List ℕ) (pos len n : ℕ)
    → n ≤ len
    → pos + len ≤ length buf
    → (moved pos len n + (len - n) ≤ length buf)
      × (take n (window buf pos len) ++ window buf (moved pos len n) (len - n) ≡ window buf pos len)
window_split buf pos len n h room =
    let behind : List ℕ = drop pos buf in
    let size_ = length-take (pos + len - pos) behind in
    let back = length-drop pos buf in
    elim (Bool-cases (len - n == 0)) [
      | inl all ↦
          let whole : take n (window buf pos len) ≡ window buf pos len =
            take_all n (window buf pos len) (ground arith) in
          let none_ : take (0 + (len - n) - 0) buf ≡ [] =
            ap (λ k. take k buf) {y = 0} (ground arith) in
          rw (all, whole, none_) (ground arith, append-nil (window buf pos len))
      | inr some_ ↦
          let rest : take (pos + n + (len - n) - (pos + n)) (drop (pos + n) buf)
              ≡ drop n (window buf pos len) =
            ap (λ k. take k (drop (pos + n) buf)) {y = pos + len - pos - n} (omega arith)
            ∙ ap (take (pos + len - pos - n)) (sym (drop-drop n pos buf))
            ∙ sym (drop-take n (pos + len - pos) behind (omega arith)) in
          rw (some_, rest) (omega arith, take-append-drop n (window buf pos len))
    ]
