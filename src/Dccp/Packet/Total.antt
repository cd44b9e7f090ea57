-- ===== src/Dccp/Packet/Total.antt =====
-- parseOptions always ends, stays inside its slice, and so DecodeDCCPPacket panics only at a data
-- offset that points into the fixed header.
use oiwest_core.Common.{
  ℕ, zero, suc, ◌+◌, ◌-◌, ◌*◌, ◌≤◌, ◌<◌, ◌≡◌, ◌≢◌, ◌↔◌, refl, inl, inr, ◌⊎◌, List, [], ◌∷◌, ◌==◌,
  ltb, le→leb, Bool-cases, arith, length, length-drop, length-take, drop, Result, ok, err, panic,
  slice, min,
}
use oiwest_core.Dccp.Types.{Opt, Error, invalid_option, header_size}
use oiwest_core.Dccp.OptionType
use oiwest_core.Dccp.Packet.{parse_at, parse_loop, parse_options, decode_header, decode}

-- A parse that ends by at most `bound`, or with the one error of parseOptions.
abbrev pub EndsBy : ℕ → Result Error (List Opt × ℕ) → Type 0
EndsBy bound (ok (options, n)) = n ≤ bound
EndsBy bound (err e) = e ≡ invalid_option
EndsBy bound panic = ⊥

EndsBy-mono : {m n : ℕ} (r : Result Error (List Opt × ℕ)) → m ≤ n → EndsBy m r → EndsBy n r
EndsBy-mono (ok (options, k)) h e = omega arith
EndsBy-mono (err x) h e = e
EndsBy-mono panic h e = e

parse_at-EndsBy :
    (next : List ℕ → List Opt → ℕ → Result Error (List Opt × ℕ)) (t : ℕ) (rest : List ℕ)
    (options : List Opt) (offset : ℕ)
    → ((xs : List ℕ) (os : List Opt) (o : ℕ)
        → length xs ≤ length rest
        → EndsBy (o + length xs) (next xs os o))
    → EndsBy (offset + suc (length rest)) (parse_at next t rest options offset)
unfolding parse_at
parse_at-EndsBy next t [] options offset h = omega arith
parse_at-EndsBy next t (l ∷ rest) options offset h = elim (Bool-cases (ltb l 2)) [
  | inl short ↦ rw short refl
  | inr fine ↦ elim (Bool-cases (ltb (length rest + 2) l)) [
    | inl long ↦ rw (fine, long) (omega arith)
    | inr fits ↦
        let least : 2 ≤ l = ground arith in
        let most : l ≤ length rest + 2 = ground arith in
        let left = length-drop l (t ∷ l ∷ rest) in
        rw (fine, fits, le→leb 2 l least, le→leb l (length rest + 2) most)
          (EndsBy-mono _ (omega (arith, left, least, most))
            (h (drop l (t ∷ l ∷ rest)) _ (offset + l) (omega (arith, left, least, most))))
  ]
]

-- The fuel of the loop is enough: it never runs out, and never reads past the slice.
pub parse_loop-EndsBy :
    (fuel : ℕ) (rest : List ℕ) (options : List Opt) (offset : ℕ)
    → length rest < fuel
    → EndsBy (offset + length rest) (parse_loop fuel rest options offset)
unfolding parse_loop
parse_loop-EndsBy zero rest options offset h = elim h [ ]
parse_loop-EndsBy (suc fuel) [] options offset h = omega arith
parse_loop-EndsBy (suc fuel) (t ∷ rest) options offset h =
    elim (Bool-cases (t == OptionType.padding)) [
      | inl pad ↦
          rw (pad, parse_loop)
            (EndsBy-mono _ (omega arith)
              (parse_loop-EndsBy fuel rest options (offset + 1) (omega arith)))
      | inr other ↦
          rw (other, parse_loop)
            (parse_at-EndsBy (parse_loop fuel) t rest options offset
              (λ xs os o k. parse_loop-EndsBy fuel xs os o (omega arith)))
    ]

-- parseOptions on any bytes ends within its fuel: it answers ErrInvalidOption or options with an
-- offset that is within the bytes, and never panics.
pub parse_options-EndsBy : (bytes : List ℕ) → EndsBy (length bytes) (parse_options bytes)
unfolding parse_options
parse_options-EndsBy bytes =
    EndsBy-mono _ (omega arith) (parse_loop-EndsBy (length bytes + 1) bytes [] 0 (omega arith))

EndsBy-cases :
    (bound : ℕ) (r : Result Error (List Opt × ℕ))
    → EndsBy bound r
    → (r ≡ err invalid_option) ⊎ ((os : List Opt) × (n : ℕ) × (r ≡ ok (os, n)) × (n ≤ bound))
EndsBy-cases bound (ok (os, n)) h = inr (os, n, refl, h)
EndsBy-cases bound (err e) h = inl (rw h)
EndsBy-cases bound panic h = absurd h

pub length-slice :
    (xs : List ℕ) (from to : ℕ) → to ≤ length xs → length (slice xs from to) ≡ to - from
length-slice xs from to h =
    omega (arith, length-take (to - from) (drop from xs), length-drop from xs)

-- The inputs that DecodeDCCPPacket answers with a panic: enough bytes for the header that they
-- announce, but a data offset of less than three words.
abbrev pub PanicsOn : List ℕ → Type 0
PanicsOn bytes =
    (header_size ≤ length bytes)
    × (((decode_header bytes).extended ≢ 1) ⊎ (16 ≤ length bytes))
    × ((decode_header bytes).data_offset < 3)

-- DecodeDCCPPacket panics exactly on those inputs.
pub decode_panics : (bytes : List ℕ) → (decode bytes ≡ panic) ↔ PanicsOn bytes
unfolding decode
decode_panics bytes = (λ e. ground (arith, options_end), λ p. ground arith)
  where
    end : ℕ
    end = min ((decode_header bytes).data_offset * 4) (length bytes)

    options_end :
        (parse_options (slice bytes header_size end) ≡ err invalid_option)
        ⊎ ((os : List Opt) × (n : ℕ) × (parse_options (slice bytes header_size end) ≡ ok (os, n))
            × (n ≤ end - header_size))
    options_end = EndsBy-cases _ _ (
        EndsBy-mono _ (omega (arith, length-slice bytes header_size end (omega arith)))
          (parse_options-EndsBy (slice bytes header_size end)))
