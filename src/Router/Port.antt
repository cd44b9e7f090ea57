-- ===== src/Router/Port.antt =====
-- Ports and port ranges as numbers.
use oiwest_core.Common.{
  ℕ, ◌+◌, ◌-◌, ◌*◌, ◌%◌, ◌^◌, ◌≤◌, ◌≡◌, refl, ◌∙◌, ap, false, ◌&&◌, [], ◌∷◌, ◌++◌, leb,
  if◌then◌else◌, arith,
}
use oiwest_core.Router.{
  Text, is_space, port_step, port_loop, parse_port, trim_left, trim_right, split_dash, match_port,
}

-- The number that the digits of a text write, without a bound.
pub port_value : Text → ℕ → ℕ
port_value [] n = n
port_value (c ∷ s) n = port_value s (if leb 48 c && leb c 57 then n * 10 + (c - 48) else n)

port_step-mod :
    (n c : ℕ)
    → port_step (n % 2 ^ 16) c ≡ (if leb 48 c && leb c 57 then n * 10 + (c - 48) else n) % 2 ^ 16
unfolding port_step
port_step-mod n c = ground arith

port_loop-mod : (s : Text) (n : ℕ) → port_loop s (n % 2 ^ 16) ≡ port_value s n % 2 ^ 16
unfolding port_loop port_value
port_loop-mod [] n = refl
port_loop-mod (c ∷ s) n =
    ap (port_loop s) (port_step-mod n c)
    ∙ port_loop-mod s (if leb 48 c && leb c 57 then n * 10 + (c - 48) else n)

-- parsePort is the number that the digits write, modulo 2^16.
pub parse_port-value : (s : Text) → parse_port s ≡ port_value s 0 % 2 ^ 16
unfolding parse_port
parse_port-value s = port_loop-mod s 0

-- Texts of decimal digits.
abbrev pub IsDigits : Text → Type 0
IsDigits [] = Unit
IsDigits (c ∷ s) = (48 ≤ c) × (c ≤ 57) × IsDigits s

trim_right_digit : (c : ℕ) (s : Text) → is_space c ≡ false → trim_right (c ∷ s) ≡ c ∷ trim_right s
unfolding trim_right
trim_right_digit c s e = rw e refl

digit_no_space : (c : ℕ) → 48 ≤ c → is_space c ≡ false
digit_no_space c h = ground arith

trim_right-digits : (s : Text) → IsDigits s → trim_right s ≡ s
unfolding trim_right
trim_right-digits [] h = refl
trim_right-digits (c ∷ s) (lo, hi, h) =
    rw (digit_no_space c lo) (ap (λ r. c ∷ r) (trim_right-digits s h))

trim_right-range : (s t : Text) → IsDigits s → IsDigits t → trim_right (s ++ 45 ∷ t) ≡ s ++ 45 ∷ t
unfolding trim_right
trim_right-range [] t h k = ap (λ r. 45 ∷ r) (trim_right-digits t k)
trim_right-range (c ∷ s) t (lo, hi, h) k =
    rw (digit_no_space c lo) (ap (λ r. c ∷ r) (trim_right-range s t h k))

split_dash-digits : (s : Text) → IsDigits s → split_dash s ≡ s ∷ []
unfolding split_dash
split_dash-digits [] h = refl
split_dash-digits (c ∷ s) (lo, hi, h) = rw (split_dash-digits s h) (ground arith)

split_dash-range : (s t : Text) → IsDigits s → IsDigits t → split_dash (s ++ 45 ∷ t) ≡ s ∷ t ∷ []
unfolding split_dash
split_dash-range [] t h k = rw (split_dash-digits t k) refl
split_dash-range (c ∷ s) t (lo, hi, h) k = rw (split_dash-range s t h k) (ground arith)

-- A rule of two decimal numbers with a dash between them, the first not empty, matches the ports
-- between their values modulo 2^16.
pub match_port_range :
    (c : ℕ) (s t : Text) (port : ℕ)
    → IsDigits (c ∷ s)
    → IsDigits t
    → match_port ((c ∷ s) ++ 45 ∷ t) port
      ≡ (leb (port_value (c ∷ s) 0 % 2 ^ 16) port && leb port (port_value t 0 % 2 ^ 16))
unfolding match_port trim_left
match_port_range c s t port (lo, hi, h) k =
    rw
      (
        digit_no_space c lo,
        trim_right-range (c ∷ s) t (lo, hi, h) k,
        split_dash-range (c ∷ s) t (lo, hi, h) k,
        parse_port-value (c ∷ s),
        parse_port-value t,
      )
      refl
