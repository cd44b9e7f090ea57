-- ===== src/Shadowsocks/Tests.antt =====
-- The theorems of Shadowsocks with a hash and an AEAD that are concrete functions.
use oiwest_core.Common.{ℕ, List, [], ◌∷◌, ◌++◌, replicate, some, none, be16}
use oiwest_core.Shadowsocks.{Aead, Lib, Reader}

abbrev tagged : Aead
tagged = record {
  nonce_size = 1;
  seal = λ nonce plain. 9 ∷ plain;
  open_ = λ nonce packet. elim packet [ [] ↦ none | x ∷ xs ↦ some xs ];
}

abbrev lib : Lib
lib = record { md5 = λ m. replicate 16 7; aead = λ m key. some tagged }

abbrev empty : Reader
empty = record { buf = []; offset = 0; length_ = 0 }

abbrev stream : List ℕ
stream = (be16 4 ++ 5 ∷ 9 ∷ 1 ∷ 2 ∷ []) ++ []

abbrev one : List (List ℕ)
one = (1 ∷ 2 ∷ []) ∷ []
