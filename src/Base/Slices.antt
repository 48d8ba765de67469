-- ===== src/Base/Slices.antt =====
-- The parts of lists that `take` and `drop` give.
use Prim.Native.Nat.{ℕ, zero, suc, ◌+◌, ◌-◌}
use mathlib.Core.Path.{◌≡◌, refl, sym, ap, ◌∙◌}
use mathlib.Core.List.{List, [], ◌∷◌, ◌++◌}
use native.Mathlib.Omega.{arith}
use prosody.Base.Lists.{length, take, drop, replicate}

module _ {ℓ} {A : Type ℓ} where
  pub length-replicate : (n : ℕ) (c : A) → length (replicate n c) ≡ n
  length-replicate zero c = refl
  length-replicate (suc n) c = ap suc (length-replicate n c)

  pub length-drop : (n : ℕ) (xs : List A) → length (drop n xs) ≡ length xs - n
  length-drop zero xs = omega arith
  length-drop (suc n) [] = omega arith
  length-drop (suc n) (x ∷ xs) = omega (arith, length-drop n xs)

  pub take_all : (xs : List A) (n : ℕ) → length xs ≡ n → take n xs ≡ xs
  take_all [] zero e = refl
  take_all [] (suc n) e = absurd (omega arith)
  take_all (x ∷ xs) zero e = absurd (omega arith)
  take_all (x ∷ xs) (suc n) e = ap (λ r. x ∷ r) (take_all xs n (omega arith))

  pub take-append : (xs ys : List A) (n : ℕ) → length xs ≡ n → take n (xs ++ ys) ≡ xs
  take-append [] ys zero h = refl
  take-append [] ys (suc n) h = absurd (omega arith)
  take-append (x ∷ xs) ys zero h = absurd (omega arith)
  take-append (x ∷ xs) ys (suc n) h = ap (λ r. x ∷ r) (take-append xs ys n (omega arith))

  pub drop_behind : (xs ys : List A) (n : ℕ) → drop (length xs + n) (xs ++ ys) ≡ drop n ys
  drop_behind [] ys n = let e : 0 + n ≡ n = omega arith in ap (λ m. drop m ys) e
  drop_behind (x ∷ xs) ys n =
      let e : suc (length xs) + n ≡ suc (length xs + n) = omega arith in
      ap (λ m. drop m (x ∷ (xs ++ ys))) e ∙ drop_behind xs ys n

  drop-nil : (n : ℕ) → drop {A = A} n [] ≡ []
  drop-nil zero = refl
  drop-nil (suc n) = refl

  pub drop-drop : (xs : List A) (a b : ℕ) → drop a (drop b xs) ≡ drop (b + a) xs
  drop-drop xs a zero = let e : a ≡ 0 + a = omega arith in ap (λ m. drop m xs) e
  drop-drop [] a (suc b) = drop-nil a ∙ sym (drop-nil (suc b + a))
  drop-drop (x ∷ xs) a (suc b) =
      let e : suc (b + a) ≡ suc b + a = omega arith in
      drop-drop xs a b ∙ ap (λ m. drop m (x ∷ xs)) e
