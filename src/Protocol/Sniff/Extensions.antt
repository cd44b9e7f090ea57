-- ===== src/Protocol/Sniff/Extensions.antt =====
-- The extensions of a client hello, up to the server name.
use oiwest_core.Common.{
  ℕ, zero, suc, ◌+◌, ◌-◌, ◌*◌, ◌/◌, ◌%◌, ◌^◌, ◌≤◌, ◌<◌, ◌≡◌, refl, sym, ap, ◌∙◌, false, List, [],
  ◌∷◌, ◌++◌, ◌==◌, length, length-append, take, slice, u16_at, be16, append_assoc, All, ok, arith,
  le→leb, le→ltb_false, lt→ltb,
}
use oiwest_core.Common.Reading.{u16_at-skip, slice-skip}
use oiwest_core.Common.Copying.{take_all}
use oiwest_core.Protocol.Sniff.{name_of, server_name, extension_loop}

-- An extension that is no server name.
pub record Extension : Type 0 where
  pub kind : ℕ
  pub body : List ℕ

abbrev pub IsOther : Extension → Type 0
IsOther x = (0 < x.kind) × (x.kind < 2 ^ 16) × (length x.body < 2 ^ 16)

unfoldable pub extensions : List Extension → List ℕ
extensions [] = []
extensions (x ∷ xs) = be16 x.kind ++ (be16 (length x.body) ++ (x.body ++ extensions xs))

-- The extension of a server name, with a list of this one name.
unfoldable pub name_extension : List ℕ → List ℕ
name_extension host =
    be16 0
    ++ (be16 (length host + 5) ++ (be16 (length host + 3) ++ (0 ∷ (be16 (length host) ++ host))))

pub name_of_lem :
    (host : List ℕ)
    → 0 < length host
    → length host < 253
    → name_of (be16 (length host + 3) ++ (0 ∷ (be16 (length host) ++ host))) ≡ ok host
unfolding name_of
name_of_lem host p h =
    let n : length host / 256 % 256 * 256 + length host % 256 ≡ length host = omega arith in
    let top : (length host + 3) / 256 % 256 ≡ 0 = omega arith in
    let whole : take (5 + length host - 5) host ≡ host =
      take_all (5 + length host - 5) host (omega arith) in
    rw
      (
        n,
        top,
        lt→ltb 5 (suc (suc (suc (suc (suc (length host)))))) (omega arith),
        le→leb 5 (suc (suc (suc (suc (suc (length host)))))) (omega arith),
        le→leb (5 + length host) (suc (suc (suc (suc (suc (length host)))))) (omega arith),
        whole,
      )
      refl

pub length-name_extension : (host : List ℕ) → length (name_extension host) ≡ 9 + length host
unfolding name_extension
length-name_extension host = omega arith

-- The loop where the server name stands.
pub at_name :
    (fuel : ℕ) (pre host more : List ℕ) (end : ℕ)
    → 0 < length host
    → length host < 253
    → length pre + (9 + length host) ≤ end
    → extension_loop (suc fuel) (pre ++ (name_extension host ++ more)) (length pre) end ≡ ok host
unfolding extension_loop server_name name_extension
at_name fuel pre host more end p h l =
    let list : List ℕ = be16 (length host + 3) ++ (0 ∷ (be16 (length host) ++ host)) in
    let tail : List ℕ = be16 (length host + 5) ++ (list ++ more) in
    let size = length-append pre (be16 0 ++ tail) in
    let size' = length-append list more in
    let kind : u16_at (pre ++ (be16 0 ++ tail)) (length pre) ≡ 0 =
      u16_at-skip pre tail 0 (omega arith) in
    let n : u16_at (pre ++ (be16 0 ++ tail)) (length pre + 2) ≡ length host + 5 =
      ap (λ xs. u16_at xs (length pre + 2)) (sym (append_assoc pre (be16 0) tail))
      ∙ ap (u16_at ((pre ++ be16 0) ++ tail)) {y = length (pre ++ be16 0)}
          (omega (arith, length-append pre (be16 0)))
      ∙ u16_at-skip (pre ++ be16 0) (list ++ more) (length host + 5) (omega arith) in
    let cut : slice (pre ++ (be16 0 ++ tail)) (length pre + 4) (length pre + 4 + (length host + 5))
        ≡ list =
      ap (λ xs. slice xs (length pre + 4) (length pre + 4 + (length host + 5)))
        (sym (append_assoc pre (be16 0 ++ be16 (length host + 5)) (list ++ more)))
      ∙ slice-skip (pre ++ (be16 0 ++ be16 (length host + 5))) list more (length pre + 4)
          (length pre + 4 + (length host + 5))
          (omega (arith, length-append pre (be16 0 ++ be16 (length host + 5))))
          (omega (arith, length-append pre (be16 0 ++ be16 (length host + 5)))) in
    rw
      (
        le→leb (length pre + 4) end (omega arith),
        le→leb (length pre + 4) (length (pre ++ (be16 0 ++ tail))) (omega arith),
        extension_loop,
        le→leb (length pre + 4) (length (pre ++ (be16 0 ++ tail))) (omega arith),
        kind,
        n,
        le→ltb_false end (length pre + 4 + (length host + 5)) (omega arith),
        le→ltb_false (length (pre ++ (be16 0 ++ tail))) (length pre + 4 + (length host + 5))
            (omega arith),
        le→leb (length pre + 4 + (length host + 5)) (length (pre ++ (be16 0 ++ tail)))
            (omega arith),
        cut,
      )
      (name_of_lem host p h)

-- The loop over other extensions and then the server name.
pub loop_lem :
    (xs : List Extension) (fuel : ℕ) (pre host more : List ℕ) (end : ℕ)
    → All IsOther xs
    → 0 < length host
    → length host < 253
    → length xs < fuel
    → length pre + (length (extensions xs) + (9 + length host)) ≤ end
    → extension_loop fuel (pre ++ (extensions xs ++ (name_extension host ++ more))) (length pre) end
      ≡ ok host
unfolding extension_loop extensions
loop_lem xs zero pre host more end o p h f l = elim f [ ]
loop_lem [] (suc fuel) pre host more end o p h f l =
    at_name fuel pre host more end p h (omega arith)
loop_lem (x ∷ xs) (suc fuel) pre host more end ((some_, kind, short), o) p h f l =
    let after_ : List ℕ = extensions xs ++ (name_extension host ++ more) in
    let whole : List ℕ = be16 x.kind ++ (be16 (length x.body) ++ (x.body ++ after_)) in
    let head : List ℕ = be16 x.kind ++ (be16 (length x.body) ++ x.body) in
    let flat : (be16 x.kind ++ (be16 (length x.body) ++ (x.body ++ extensions xs)))
          ++ (name_extension host ++ more)
        ≡ whole =
      ap (λ r. be16 x.kind ++ (be16 (length x.body) ++ r))
        (append_assoc x.body (extensions xs) (name_extension host ++ more)) in
    let size = length-append pre whole in
    let size' = length-append x.body after_ in
    let sizes = length-append x.body (extensions xs) in
    let k : u16_at (pre ++ whole) (length pre) ≡ x.kind =
      u16_at-skip pre (be16 (length x.body) ++ (x.body ++ after_)) x.kind kind in
    let n : u16_at (pre ++ whole) (length pre + 2) ≡ length x.body =
      ap (λ ys. u16_at ys (length pre + 2))
        (sym (append_assoc pre (be16 x.kind) (be16 (length x.body) ++ (x.body ++ after_))))
      ∙ ap (u16_at ((pre ++ be16 x.kind) ++ (be16 (length x.body) ++ (x.body ++ after_))))
          {y = length (pre ++ be16 x.kind)} (omega (arith, length-append pre (be16 x.kind)))
      ∙ u16_at-skip (pre ++ be16 x.kind) (x.body ++ after_) (length x.body) short in
    let on : length pre + 4 + length x.body ≡ length (pre ++ head) =
      omega (arith, length-append pre head) in
    let other : (x.kind == 0) ≡ false = ground arith in
    rw flat (
      rw
        (
          le→leb (length pre + 4) end (omega arith),
          le→leb (length pre + 4) (length (pre ++ whole)) (omega arith),
          extension_loop,
          le→leb (length pre + 4) (length (pre ++ whole)) (omega arith),
          k,
          n,
          other,
          on,
          ← append_assoc pre head after_,
        )
        (loop_lem xs fuel (pre ++ head) host more end o p h (omega arith)
          (omega (arith, length-append pre head))))

pub length-extensions : (xs : List Extension) → length xs ≤ length (extensions xs)
unfolding extensions
length-extensions [] = omega arith
length-extensions (x ∷ xs) =
    omega (arith, length-extensions xs, length-append x.body (extensions xs))
