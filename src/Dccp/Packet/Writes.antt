-- ===== src/Dccp/Packet/Writes.antt =====
-- What the loops of EncodeDCCPPacket write behind the fixed header.
use oiwest_core.Common.{
  ℕ, zero, suc, ◌+◌, ◌-◌, ◌≤◌, ◌≡◌, ◌≢◌, refl, sym, ap, ap₂, ◌∙◌, List, [], ◌∷◌, ◌++◌, arith,
  length, set, take, drop, replicate, length-append, length-drop, length-replicate, append_assoc,
  append-nil, ok, lt→ltb, le→leb, copy_at,
}
use native.Mathlib.Nat.{add_assoc}
use oiwest_core.Common.Copying.{take_all, drop_all, drop-drop, copy_at-skip, set-skip, copy_at-zero}
use oiwest_core.Dccp.Types.{Opt, header_size}
use oiwest_core.Dccp.OptionType
use oiwest_core.Dccp.Packet.{write_body, option_size, padding_size, write_options, write_padding}

-- An option whose length byte counts its type, itself and its data, and that is no padding.
pub record IsSound (o : Opt) : Type 0 where
  pub counted : length o.body + 2 ≡ o.len
  pub no_padding : o.option_type ≢ OptionType.padding

abbrev pub AllSound : List Opt → Type 0
AllSound [] = Unit
AllSound (o ∷ os) = IsSound o × AllSound os

-- The bytes of the options, one after the other.
abbrev pub wire : List Opt → List ℕ
wire [] = []
wire (o ∷ os) = o.option_type ∷ o.len ∷ (o.body ++ wire os)

pub length-wire : (os : List Opt) → AllSound os → length (wire os) ≡ option_size os
unfolding option_size
length-wire [] h = refl
length-wire (o ∷ os) (s, h) =
    omega (arith, s.counted, length-wire os h, length-append o.body (wire os))

length_two : (xs : List ℕ) → 2 ≤ length xs → (a : ℕ) × (b : ℕ) × (r : List ℕ) × (xs ≡ a ∷ b ∷ r)
length_two [] h = elim h [ ]
length_two (a ∷ []) h = absurd (omega arith)
length_two (a ∷ b ∷ r) h = (a, b, r, refl)

drop_two : (n : ℕ) (a b : ℕ) (r : List ℕ) → drop (n + 2) (a ∷ b ∷ r) ≡ drop n r
drop_two n a b r = ap (λ k. drop k (a ∷ b ∷ r)) {y = suc (suc n)} (omega arith)

-- One option, written over the start of what follows the prefix.
write_one_over :
    (pre : List ℕ) (a b : ℕ) (r : List ℕ) (offset : ℕ) (o : Opt)
    → offset ≡ length pre
    → IsSound o
    → length o.body ≤ length r
    → copy_at
        (set (set (pre ++ a ∷ b ∷ r) offset o.option_type) (offset + 1) o.len)
        (offset + 2)
        (take (o.len - 2) o.body)
      ≡ pre ++ (o.option_type ∷ o.len ∷ (o.body ++ drop (length o.body) r))
write_one_over pre a b r offset o e s h =
    rw
      (
        take_all (o.len - 2) o.body (omega (arith, s.counted)),
        set-skip pre (a ∷ b ∷ r) offset 0 o.option_type (omega arith),
        set-skip pre (o.option_type ∷ b ∷ r) (offset + 1) 1 o.len (omega arith),
        copy_at-skip pre (o.option_type ∷ o.len ∷ r) (offset + 2) 2 o.body (omega arith),
      )
      (ap (λ t. pre ++ (o.option_type ∷ o.len ∷ t)) (copy_at-zero r o.body h))

write_one :
    (pre mid : List ℕ) (offset : ℕ) (o : Opt)
    → offset ≡ length pre
    → IsSound o
    → o.len ≤ length mid
    → copy_at
        (set (set (pre ++ mid) offset o.option_type) (offset + 1) o.len)
        (offset + 2)
        (take (o.len - 2) o.body)
      ≡ (pre ++ (o.option_type ∷ o.len ∷ o.body)) ++ drop o.len mid
write_one pre mid offset o e s h =
    let (a, b, r, m) = length_two mid (omega (arith, s.counted)) in
    let fits : length o.body ≤ length r = omega (arith, s.counted, ap length m) in
    rw m
      (write_one_over pre a b r offset o e s fits ∙ rw (← s.counted, drop_two, append_assoc) refl)

write_options-wire :
    (os : List Opt) (pre mid : List ℕ) (offset : ℕ)
    → offset ≡ length pre
    → AllSound os
    → option_size os ≤ length mid
    → write_options os offset (pre ++ mid)
      ≡ ok (offset + option_size os, pre ++ (wire os ++ drop (option_size os) mid))
unfolding write_options option_size
write_options-wire [] pre mid offset e s h = ap (λ n. ok (n, pre ++ mid)) (omega arith)
write_options-wire (o ∷ os) pre mid offset e (s, ss) h =
    let pre' : List ℕ = pre ++ (o.option_type ∷ o.len ∷ o.body) in
    let at_end : offset + o.len ≡ length pre' =
      omega (arith, s.counted, length-append pre (o.option_type ∷ o.len ∷ o.body)) in
    let space : option_size os ≤ length (drop o.len mid) = omega (arith, length-drop o.len mid) in
    rw
      (
        lt→ltb offset (length (pre ++ mid)) (omega (arith, s.counted, length-append pre mid)),
        lt→ltb (offset + 1) (length (pre ++ mid)) (omega (arith, s.counted, length-append pre mid)),
        le→leb 2 o.len (omega (arith, s.counted, length-append pre mid)),
        le→leb (offset + o.len) (length (pre ++ mid))
            (omega (arith, s.counted, length-append pre mid)),
        write_one pre mid offset o e s (omega arith),
        write_options-wire os pre' (drop o.len mid) (offset + o.len) at_end ss space,
      )
      (ap₂ (λ n t. ok (n, t)) {x = offset + o.len + option_size os} (add_assoc _ _ _)
        (simp (append_assoc, drop-drop)))

write_padding_lem :
    (n : ℕ) (pre mid : List ℕ) (offset : ℕ)
    → offset ≡ length pre
    → n ≤ length mid
    → write_padding n offset (pre ++ mid) ≡ ok (pre ++ (replicate n 0 ++ drop n mid))
unfolding write_padding
write_padding_lem zero pre mid offset e h = refl
write_padding_lem (suc n) pre [] offset e h = elim h [ ]
write_padding_lem (suc n) pre (a ∷ mid) offset e h = rw (
  lt→ltb offset (length (pre ++ (a ∷ mid))) (omega (arith, length-append pre (a ∷ mid))),
  set-skip pre (a ∷ mid) offset 0 OptionType.padding (omega arith),
  ← append_assoc pre (0 ∷ []) mid,
  write_padding_lem n (pre ++ (0 ∷ [])) mid (offset + 1) (omega (arith, length-append pre (0 ∷ [])))
      (omega arith),
  append_assoc pre (0 ∷ []),
)

-- The bytes behind the fixed header.
abbrev pub body : List Opt → List ℕ → List ℕ
body options payload = wire options ++ (replicate (padding_size (option_size options)) 0 ++ payload)

pub length-body :
    (options : List Opt) (payload : List ℕ)
    → AllSound options
    → length (body options payload)
      ≡ option_size options + padding_size (option_size options) + length payload
length-body options payload h = omega (
  arith,
  length-append (wire options) (replicate (padding_size (option_size options)) 0 ++ payload),
  length-append (replicate (padding_size (option_size options)) 0) payload,
  length-replicate (padding_size (option_size options)) zero,
  length-wire options h,
)

-- The payload replaces all that is left of the buffer.
put_payload :
    (pre mid payload : List ℕ) (offset : ℕ)
    → offset ≡ length pre
    → length mid ≡ length payload
    → copy_at (pre ++ mid) offset payload ≡ pre ++ payload
put_payload pre mid payload offset e h = rw (
  copy_at-skip pre mid offset 0 payload (omega arith),
  copy_at-zero mid payload (omega arith),
  drop_all (length payload) mid (omega arith),
  append-nil,
)

-- Behind a header the three writes leave the options, the padding and the payload.
pub write_body_lem :
    (options : List Opt) (payload head mid : List ℕ)
    → length head ≡ header_size
    → AllSound options
    → length mid ≡ option_size options + padding_size (option_size options) + length payload
    → write_body options payload (head ++ mid) ≡ ok (head ++ body options payload)
unfolding write_body
write_body_lem options payload head mid len_head sound len_mid =
    let size = option_size options in
    let pad = padding_size size in
    let zeros : List ℕ = replicate pad 0 in
    let len_zeros = length-replicate pad zero in
    let wired = length-append head (wire options) in
    let counted = length-wire options sound in
    let left = length-drop size mid in
    let padded = length-append (head ++ wire options) zeros in
    rw
      (
        write_options-wire options head mid header_size (sym len_head) sound (omega arith),
        ← append_assoc head (wire options) (drop size mid),
        write_padding_lem pad (head ++ wire options) (drop size mid) (header_size + size)
            (omega arith) (omega arith),
        ← append_assoc (head ++ wire options) zeros (drop pad (drop size mid)),
        le→leb (header_size + size + pad)
            (length (((head ++ wire options) ++ zeros) ++ drop pad (drop size mid)))
            (omega
              (arith, length-append ((head ++ wire options) ++ zeros) (drop pad (drop size mid)))),
        put_payload ((head ++ wire options) ++ zeros) (drop pad (drop size mid)) payload
            (header_size + size + pad) (omega arith)
            (omega (arith, length-drop pad (drop size mid))),
      )
      (ap ok (simp append_assoc))
