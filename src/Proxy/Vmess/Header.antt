-- ===== src/Proxy/Vmess/Header.antt =====
-- What parseHeader of app/proxy/vmess/vmess.go makes of the header that buildVMessRequestHeader builds.
use oiwest_core.Common.{
  ℕ, zero, suc, ◌+◌, ◌*◌, ◌≤◌, ◌≡◌, ◌≢◌, refl, sym, ap, ap₂, ◌∙◌, true, List, [], ◌∷◌, ◌++◌, ◌==◌,
  ==_iff, length, length-append, append_assoc, take, drop, slice, byte_at, be32, Result, ok, err,
  arith, ◌>>=◌, Bool-cases, inl, inr,
}
use oiwest_core.Common.Copying.{take-append_length, drop-append_length}
use oiwest_core.Common.Reading.{byte_at-skip}
use oiwest_core.Router.{text_eq}
use oiwest_core.Proxy.{Error, invalid_user, Target}
use oiwest_core.Proxy.Address.{read_full_enough}
use oiwest_core.Proxy.Vmess.{
  fnv1a32, generate_auth_id, header_start, header_end, build_header, find_account, parse_header,
}

-- The 34 bytes that the server looks at.
length-header_start :
    (auth_id body_key : List ℕ) (security : ℕ)
    → length auth_id ≡ 16
    → length body_key ≡ 16
    → length (header_start auth_id body_key security) ≡ 34
unfolding header_start
length-header_start auth_id body_key security a b = omega (
  arith,
  length-append auth_id (body_key ++ 17 * security ∷ []),
  length-append body_key (17 * security ∷ []),
)

take-append_more :
    (xs ys : List ℕ) (n k : ℕ) → n ≡ length xs + k → take n (xs ++ ys) ≡ xs ++ take k ys
take-append_more [] ys n k h = ap (λ i. take i ys) (omega arith)
take-append_more (x ∷ xs) ys zero k h = absurd (omega arith)
take-append_more (x ∷ xs) ys (suc n) k h =
    ap (λ r. x ∷ r) (take-append_more xs ys n k (omega arith))

-- The fields of a header in the bytes that start with it.
fields :
    (auth_id body_key tail : List ℕ) (security : ℕ)
    → length auth_id ≡ 16
    → length body_key ≡ 16
    → (slice (header_start auth_id body_key security ++ tail) 1 17 ≡ auth_id)
      × (slice (header_start auth_id body_key security ++ tail) 17 33 ≡ body_key)
      × (byte_at (header_start auth_id body_key security ++ tail) 33 ≡ 17 * security)
      × (byte_at (header_start auth_id body_key security ++ tail) 0 ≡ 1)
unfolding header_start
fields auth_id body_key tail security a b =
    let opt : List ℕ = 17 * security ∷ tail in
    let joined : auth_id ++ (body_key ++ 17 * security ∷ []) ++ tail
        ≡ auth_id ++ (body_key ++ opt) =
      append_assoc auth_id (body_key ++ 17 * security ∷ []) tail
      ∙ ap (λ r. auth_id ++ r) (append_assoc body_key (17 * security ∷ []) tail) in
    let past : drop 16 (auth_id ++ (body_key ++ opt)) ≡ body_key ++ opt =
      drop-append_length 16 auth_id (body_key ++ opt) (sym a) in
    (
      rw joined (take-append_length 16 auth_id (body_key ++ opt) (sym a)),
      rw (joined, past) (take-append_length 16 body_key opt (sym b)),
      rw joined (
          byte_at-skip auth_id (body_key ++ opt) 32 16 (omega (arith, a))
          ∙ byte_at-skip body_key opt 16 0 (omega (arith, b))),
      refl,
    )

parse_header-header_start :
    (mac : List ℕ → List ℕ) (time : ℕ) (keys : List (List ℕ)) (auth_id body_key tail : List ℕ)
    (security : ℕ)
    → length auth_id ≡ 16
    → length body_key ≡ 16
    → 15 ≤ length tail
    → parse_header mac time keys (header_start auth_id body_key security ++ tail) ≡ (
        find_account mac time keys auth_id >>= λ key.
        ok (key, body_key, 17 * security, drop 49 (header_start auth_id body_key security ++ tail)))
unfolding parse_header
parse_header-header_start mac time keys auth_id body_key tail security a b long =
    let start = header_start auth_id body_key security in
    let size = length-header_start auth_id body_key security a b in
    let (id_, key_, opt_, version_) = fields auth_id body_key (take 15 tail) security a b in
    rw (
      read_full_enough 49 (start ++ tail) (omega (arith, length-append start tail)),
      take-append_more start tail 49 15 (omega arith),
      version_,
      id_,
      key_,
      opt_,
    )

build_header_split :
    (auth_id body_key rest : List ℕ) (security : ℕ) (target : Target) (cmd : ℕ)
    → (tail : List ℕ) × (build_header auth_id body_key security target cmd ++ rest
        ≡ header_start auth_id body_key security ++ tail)
unfolding build_header
build_header_split auth_id body_key rest security target cmd =
    let start = header_start auth_id body_key security in
    let end = header_end cmd target in
    let sum : List ℕ = be32 (fnv1a32 2166136261 (start ++ end)) in
    (
      end ++ (sum ++ rest),
      append_assoc (start ++ end) sum rest ∙ append_assoc start end (sum ++ rest),
    )

-- The account whose id at this second is the one asked for, the first of them in the order of the accounts.
pub data Found (mac : List ℕ → List ℕ) (time : ℕ) (auth_id : List ℕ)
    : List (List ℕ) → Result Error (List ℕ) → Type 0 where
  nobody : Found mac time auth_id [] (err invalid_user)
  this :
      {key : List ℕ} {keys : List (List ℕ)}
      → generate_auth_id mac time key ≡ auth_id
      → Found mac time auth_id (key ∷ keys) (ok key)
  other :
      {key : List ℕ} {keys : List (List ℕ)} {r : Result Error (List ℕ)}
      → generate_auth_id mac time key ≢ auth_id
      → Found mac time auth_id keys r
      → Found mac time auth_id (key ∷ keys) r

text_eq_same : (xs ys : List ℕ) → text_eq xs ys ≡ true → ys ≡ xs
unfolding text_eq
text_eq_same [] [] e = refl
text_eq_same [] (y ∷ ys) e = cc e
text_eq_same (x ∷ xs) [] e = cc e
text_eq_same (x ∷ xs) (y ∷ ys) e = elim (Bool-cases (x == y)) [
  | inl same ↦ ap₂ (λ a b. a ∷ b) (sym ((==_iff x y).0 same)) (text_eq_same xs ys (rw same at e))
  | inr differ ↦ absurd (ground arith)
]

text_eq_refl : (xs : List ℕ) → text_eq xs xs ≡ true
unfolding text_eq
text_eq_refl [] = refl
text_eq_refl (x ∷ xs) = rw ((==_iff x x).1 refl) (text_eq_refl xs)

find_account-Found :
    (mac : List ℕ → List ℕ) (time : ℕ) (keys : List (List ℕ)) (auth_id : List ℕ)
    → Found mac time auth_id keys (find_account mac time keys auth_id)
unfolding find_account
find_account-Found mac time [] auth_id = nobody
find_account-Found mac time (key ∷ keys) auth_id =
    elim (Bool-cases (text_eq auth_id (generate_auth_id mac time key))) [
      | inl same ↦ rw same (this (text_eq_same auth_id _ same))
      | inr differ ↦ rw differ (
          other
            (λ e.
              let clash : text_eq auth_id (generate_auth_id mac time key) ≡ true =
                ap (text_eq auth_id) e ∙ text_eq_refl auth_id in
              cc (clash, differ))
            (find_account-Found mac time keys auth_id))
    ]

-- The server takes from a request of its client, with an id and a body key of 16 bytes, the first of
-- its accounts that has that id at this second, the key of the body and the options, and starts the
-- body 49 bytes in, wherever the header ends, if at least 49 bytes come; where no account has the id it
-- answers that the user is invalid.
pub parse_header-build_header :
    (mac : List ℕ → List ℕ) (time : ℕ) (keys : List (List ℕ)) (auth_id body_key rest : List ℕ)
    (security : ℕ) (target : Target) (cmd : ℕ)
    → length auth_id ≡ 16
    → length body_key ≡ 16
    → 49 ≤ length (build_header auth_id body_key security target cmd ++ rest)
    → (account : Result Error (List ℕ)) × Found mac time auth_id keys account
      × (parse_header mac time keys (build_header auth_id body_key security target cmd ++ rest) ≡ (
          account >>= λ key. ok (
            key,
            body_key,
            17 * security,
            drop 49 (build_header auth_id body_key security target cmd ++ rest),
          )))
parse_header-build_header mac time keys auth_id body_key rest security target cmd a b long =
    let (tail, e) = build_header_split auth_id body_key rest security target cmd in
    let start = header_start auth_id body_key security in
    let size = length-header_start auth_id body_key security a b in
    (
      find_account mac time keys auth_id,
      find_account-Found mac time keys auth_id,
      rw e (
          parse_header-header_start mac time keys auth_id body_key tail security a b
            (omega (arith, ap length e, length-append start tail, size, long))),
    )
