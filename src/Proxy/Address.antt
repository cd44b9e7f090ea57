-- ===== src/Proxy/Address.antt =====
-- Addresses of a type, a host and a port, as Trojan and VLESS write and read them. The three
-- types are numbers that the protocols choose.
use oiwest_core.Common.{
  take, ℕ, zero, suc, ◌-◌, ◌%◌, ◌^◌, ◌<◌, ◌≤◌, ◌≡◌, ◌≢◌, refl, sym, ap, ◌∙◌, List, [], ◌∷◌, ◌++◌,
  ◌==◌, if◌then◌else◌, length, length-append, append-nil, drop, replicate, get_or, be16, byte_at,
  Result, ok, err, arith, ==_iff, le→ltb_false, false, true, Bool,
}
use oiwest_core.Common.Copying.{take-append_length, drop-append_length}
use oiwest_core.Proxy.{
  Error, unknown_address, Host, ipv4, ipv6, domain, Target, read_full, read_lossy, read_port,
}

pub record Codes : Type 0 where
  pub four : ℕ
  pub name : ℕ
  pub six : ℕ

-- The header that a client writes; the length of a domain is a byte.
unfoldable pub host_bytes : Codes → Host → List ℕ
host_bytes c (ipv4 ip) = c.four ∷ ip
host_bytes c (ipv6 ip) = c.six ∷ ip
host_bytes c (domain d) = c.name ∷ length d % 256 ∷ d

unfoldable pub address_bytes : Codes → Target → List ℕ
unfolding host_bytes
address_bytes c t = host_bytes c t.host ++ be16 t.port

-- What a server reads behind the type. The length of a domain is `missing` at the end of the stream.
unfoldable pub read_address : Codes → ℕ → ℕ → List ℕ → Result Error (Target × List ℕ)
unfolding read_port
read_address c missing kind stream =
    let n = get_or stream 0 missing in
    if kind == c.four
    then ok (read_port (ipv4 (read_lossy 4 stream)) (drop 4 stream))
    else if kind == c.name
    then ok (read_port (domain (read_lossy n (drop 1 stream))) (drop n (drop 1 stream)))
    else if kind == c.six
    then ok (read_port (ipv6 (read_lossy 16 stream)) (drop 16 stream))
    else err unknown_address

abbrev pub IsDistinct : Codes → Type 0
IsDistinct c = (c.four ≢ c.name) × (c.four ≢ c.six) × (c.name ≢ c.six)

abbrev pub IsHost : Host → Type 0
IsHost (ipv4 ip) = length ip ≡ 4
IsHost (ipv6 ip) = length ip ≡ 16
IsHost (domain d) = length d < 256

read_lossy-append : (n : ℕ) (xs ys : List ℕ) → length xs ≡ n → read_lossy n (xs ++ ys) ≡ xs
unfolding read_lossy
read_lossy-append n xs ys h =
    let none_ : replicate (n - length (xs ++ ys)) zero ≡ [] =
      ap (λ k. replicate k zero) {y = 0} (omega (arith, length-append xs ys)) in
    rw (take-append_length n xs ys (sym h), none_) (append-nil xs)

pub read_full-append :
    (n : ℕ) (xs ys : List ℕ) → n ≡ length xs → read_full n (xs ++ ys) ≡ ok (xs, ys)
unfolding read_full
read_full-append zero [] ys h = refl
read_full-append zero (x ∷ xs) ys h = absurd (omega arith)
read_full-append (suc n) [] ys h = absurd (omega arith)
read_full-append (suc n) (x ∷ xs) ys h = rw (
  le→ltb_false (length (xs ++ ys)) n (omega (arith, length-append xs ys)),
  take-append_length n xs ys (omega arith),
  drop-append_length n xs ys (omega arith),
)

pub read_full_enough :
    (n : ℕ) (xs : List ℕ) → n ≤ length xs → read_full n xs ≡ ok (take n xs, drop n xs)
unfolding read_full
read_full_enough zero xs h = refl
read_full_enough (suc n) [] h = absurd (omega arith)
read_full_enough (suc n) (x ∷ xs) h = rw (le→ltb_false (length xs) n (omega arith))

read_port_lem :
    (host : Host) (port : ℕ) (rest : List ℕ)
    → port < 2 ^ 16
    → read_port host (be16 port ++ rest) ≡ (record { host = host; port = port }, rest)
unfolding read_port read_lossy
read_port_lem host port rest h =
    ap (λ (p : ℕ). (record { host = host; port = p }, rest)) (omega arith)

same : (a : ℕ) → (a == a) ≡ true
same a = ground arith

other : (a b : ℕ) → a ≢ b → (b == a) ≡ false
other a b h = by_test (b == a) refl
  where
    by_test : (t : Bool) → (b == a) ≡ t → t ≡ false
    by_test false e = refl
    by_test true e = absurd (h (sym ((==_iff b a).0 e)))

pub host_bytes_split :
    (c : Codes) (h : Host) → host_bytes c h ≡ byte_at (host_bytes c h) 0 ∷ drop 1 (host_bytes c h)
unfolding host_bytes
host_bytes_split c (ipv4 ip) = refl
host_bytes_split c (ipv6 ip) = refl
host_bytes_split c (domain d) = refl

-- The host behind its type is read back as it was written, and nothing more is read.
read_host_lem :
    (c : Codes) (missing : ℕ) (host : Host) (tail : List ℕ)
    → IsDistinct c
    → IsHost host
    → read_address c missing (byte_at (host_bytes c host) 0) (drop 1 (host_bytes c host) ++ tail)
      ≡ ok (read_port host tail)
unfolding host_bytes read_address
read_host_lem c missing (ipv4 ip) tail d v =
    rw (same c.four, read_lossy-append 4 ip tail v, drop-append_length 4 ip tail (sym v))
read_host_lem c missing (domain name) tail (d, _, _) v =
    let n_ : length name % 256 ≡ length name = omega arith in
    rw (
      other c.four c.name d,
      same c.name,
      n_,
      read_lossy-append (length name) name tail refl,
      drop-append_length (length name) name tail refl,
    )
read_host_lem c missing (ipv6 ip) tail (_, d, e) v = rw (
  other c.four c.six d,
  other c.name c.six e,
  same c.six,
  read_lossy-append 16 ip tail v,
  drop-append_length 16 ip tail (sym v),
)

-- The address behind its type is read back as it was written, and nothing more is read.
pub read_address-host_bytes :
    (c : Codes) (missing : ℕ) (t : Target) (rest : List ℕ)
    → IsDistinct c
    → IsHost t.host
    → t.port < 2 ^ 16
    → read_address c missing
        (byte_at (host_bytes c t.host) 0)
        (drop 1 (host_bytes c t.host) ++ (be16 t.port ++ rest))
      ≡ ok (t, rest)
read_address-host_bytes c missing t rest d v p =
    read_host_lem c missing t.host (be16 t.port ++ rest) d v
    ∙ ap ok (read_port_lem t.host t.port rest p)
