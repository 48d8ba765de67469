-- ===== src/Signal/Hook/Lists.antt =====
-- Prefixes and suffixes of the array of signals.
use prosody.Base.{
  ℕ, zero, suc, ◌+◌, ◌≤◌, ◌<◌, ◌≡◌, ◌∙◌, refl, sym, ap, List, [], ◌∷◌, ◌++◌, get_or, set, take,
  drop, length, arith,
}

module _ {ℓ} {A : Type ℓ} where
  pub take-set_end :
      (n : ℕ) (xs : List A) (v : A)
      → n < length xs
      → take (n + 1) (set xs n v) ≡ take n xs ++ (v ∷ [])
  take-set_end n [] v h = absurd (omega arith)
  take-set_end zero (x ∷ xs) v h = refl
  take-set_end (suc n) (x ∷ xs) v h =
      let e : suc n + 1 ≡ suc (n + 1) = omega arith in
      ap (λ m. take m (x ∷ set xs n v)) e ∙ ap (λ r. x ∷ r) (take-set_end n xs v (omega arith))

  pub drop-append :
      (i : ℕ) (xs : List A) (v : A)
      → i ≤ length xs
      → drop i (xs ++ (v ∷ [])) ≡ drop i xs ++ (v ∷ [])
  drop-append zero xs v h = refl
  drop-append (suc i) [] v h = absurd (omega arith)
  drop-append (suc i) (x ∷ xs) v h = drop-append i xs v (omega arith)

  pub drop-take :
      (i n : ℕ) (xs : List A) (d : A)
      → i < n
      → n ≤ length xs
      → drop i (take n xs) ≡ get_or xs i d ∷ drop (i + 1) (take n xs)
  drop-take i zero xs d h k = absurd (omega arith)
  drop-take i (suc n) [] d h k = absurd (omega arith)
  drop-take zero (suc n) (x ∷ xs) d h k = refl
  drop-take (suc i) (suc n) (x ∷ xs) d h k =
      let e : suc i + 1 ≡ suc (i + 1) = omega arith in
      drop-take i n xs d (omega arith) (omega arith)
      ∙ ap (λ m. get_or xs i d ∷ drop m (x ∷ take n xs)) (sym e)

  pub drop_all : (i : ℕ) (xs : List A) → length xs ≤ i → drop i xs ≡ []
  drop_all zero [] h = refl
  drop_all zero (x ∷ xs) h = absurd (omega arith)
  drop_all (suc i) [] h = refl
  drop_all (suc i) (x ∷ xs) h = drop_all i xs (omega arith)
