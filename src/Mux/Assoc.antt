-- ===== src/Mux/Assoc.antt =====
-- A Go map with numbers for keys, as an association list without repeated keys.
use oiwest_core.Common.{
  ℕ, suc, ◌≤◌, ◌≡◌, refl, List, [], ◌∷◌, ◌==◌, if◌then◌else◌, length, Option, none, some, arith,
}

abbrev pub Table {ℓ} : Type ℓ → Type ℓ
Table A = List (ℕ × A)

module _ {ℓ} {A : Type ℓ} where
  unfoldable pub lookup : ℕ → Table A → Option A
  lookup k [] = none
  lookup k ((j, v) ∷ t) = if j == k then some v else lookup k t

  unfoldable pub insert : ℕ → A → Table A → Table A
  insert k v [] = (k, v) ∷ []
  insert k v ((j, w) ∷ t) = if j == k then (k, v) ∷ t else (j, w) ∷ insert k v t

  unfoldable pub erase : ℕ → Table A → Table A
  erase k [] = []
  erase k ((j, v) ∷ t) = let rest = erase k t in if j == k then t else (j, v) ∷ rest

  pub lookup-insert :
      (k j : ℕ) (v : A) (t : Table A)
      → lookup j (insert k v t) ≡ (if k == j then some v else lookup j t)
  unfolding lookup insert
  lookup-insert k j v [] = refl
  lookup-insert k j v ((i, w) ∷ t) = ground (arith, lookup-insert k j v t)

  pub length-insert : (k : ℕ) (v : A) (t : Table A) → length t ≤ length (insert k v t)
  unfolding insert
  length-insert k v [] = omega arith
  length-insert k v ((j, w) ∷ t) = ground (arith, length-insert k v t)

  -- A new key makes the table one longer.
  pub length-insert_new :
      (k : ℕ) (v : A) (t : Table A) → lookup k t ≡ none → length (insert k v t) ≡ suc (length t)
  unfolding insert lookup
  length-insert_new k v [] h = refl
  length-insert_new k v ((j, w) ∷ t) h = ground (arith, length-insert_new k v t)
