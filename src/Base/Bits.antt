-- ===== src/Base/Bits.antt =====
-- The binary digits of a number, and `&`, `|` and `^` digit by digit.
use Prim.Native.Nat.{
  ℕ, zero, suc, ◌+◌, ◌*◌, ◌/◌, ◌%◌, ◌≤◌, ◌<◌, min, max, differ, digits, bitwise, bit_and, bit_or,
  bit_xor, bit_and-bitwise, bit_or-bitwise, bit_xor-bitwise,
}
use mathlib.Core.Path.{◌≡◌, refl, sym, ap, ◌∙◌}
use native.Mathlib.Omega.{arith}

-- Digit `k` of `x`, from the lowest one on.
abbrev pub digit : ℕ → ℕ → ℕ
digit zero x = x % 2
digit (suc k) x = digit k (x / 2)

pub digit-lt : (k x : ℕ) → digit k x < 2
digit-lt zero x = omega arith
digit-lt (suc k) x = digit-lt k (x / 2)

-- The fuel of the native recursion does not matter where there is enough of it.
module _ (rest : ℕ → ℕ) (op : ℕ → ℕ → ℕ) where
  enough : (m n x y : ℕ) → x ≤ m → x ≤ n → digits rest op m x y ≡ digits rest op n x y
  enough m n zero y h k = by_fuel m n
    where
      by_fuel : (m n : ℕ) → digits rest op m zero y ≡ digits rest op n zero y
      by_fuel zero zero = refl
      by_fuel zero (suc n) = refl
      by_fuel (suc m) zero = refl
      by_fuel (suc m) (suc n) = refl
  enough zero n (suc x) y h k = absurd (omega arith)
  enough (suc m) zero (suc x) y h k = absurd (omega arith)
  enough (suc m) (suc n) (suc x) y h k =
      ap (λ d. d * 2 + op (suc x % 2) (y % 2))
        (enough m n (suc x / 2) (y / 2) (omega arith) (omega arith))

  lowest :
      (x y : ℕ)
      → bitwise rest op (suc x) y ≡ bitwise rest op (suc x / 2) (y / 2) * 2 + op (suc x % 2) (y % 2)
  lowest x y =
      ap (λ d. d * 2 + op (suc x % 2) (y % 2))
        (enough x (suc x / 2) (suc x / 2) (y / 2) (omega arith) (omega arith))

  -- A native operation is the one that takes its digits from `op` and keeps those of the second
  -- number where the first has ended.
  from_lowest :
      (f : ℕ → ℕ → ℕ)
      → ((x y : ℕ) → f x y ≡ bitwise rest op x y)
      → ((y : ℕ) → rest y ≡ rest (y / 2) * 2 + op 0 (y % 2))
      → (x y : ℕ) → f x y ≡ f (x / 2) (y / 2) * 2 + op (x % 2) (y % 2)
  from_lowest f same ends zero y =
      same 0 y ∙ ends y ∙ ap (λ d. d * 2 + op 0 (y % 2)) (sym (same 0 (y / 2)))
  from_lowest f same ends (suc x) y =
      same (suc x) y
      ∙ lowest x y
      ∙ ap (λ d. d * 2 + op (suc x % 2) (y % 2)) (sym (same (suc x / 2) (y / 2)))

pub bit_and_lowest : (x y : ℕ) → bit_and x y ≡ bit_and (x / 2) (y / 2) * 2 + min (x % 2) (y % 2)
bit_and_lowest = from_lowest (λ d. 0) min bit_and (λ x y. bit_and-bitwise x y) (λ y. omega arith)

pub bit_or_lowest : (x y : ℕ) → bit_or x y ≡ bit_or (x / 2) (y / 2) * 2 + max (x % 2) (y % 2)
bit_or_lowest = from_lowest (λ d. d) max bit_or (λ x y. bit_or-bitwise x y) (λ y. omega arith)

pub bit_xor_lowest : (x y : ℕ) → bit_xor x y ≡ bit_xor (x / 2) (y / 2) * 2 + differ (x % 2) (y % 2)
bit_xor_lowest = from_lowest (λ d. d) differ bit_xor (λ x y. bit_xor-bitwise x y) (λ y. omega arith)

-- An operation on numbers whose lowest digit is that of the digits has each digit so.
digit_of_lowest :
    (f op : ℕ → ℕ → ℕ)
    → ((x y : ℕ) → f x y ≡ f (x / 2) (y / 2) * 2 + op (x % 2) (y % 2))
    → ((a b : ℕ) → a < 2 → b < 2 → op a b < 2)
    → (k x y : ℕ) → digit k (f x y) ≡ op (digit k x) (digit k y)
digit_of_lowest f op low small zero x y =
    omega (arith, low x y, small (x % 2) (y % 2) (omega arith) (omega arith))
digit_of_lowest f op low small (suc k) x y =
    let half : f x y / 2 ≡ f (x / 2) (y / 2) =
      omega (arith, low x y, small (x % 2) (y % 2) (omega arith) (omega arith)) in
    ap (digit k) half ∙ digit_of_lowest f op low small k (x / 2) (y / 2)

differ-lt : (a b : ℕ) → a < 2 → b < 2 → differ a b < 2
differ-lt zero b h k = omega arith
differ-lt (suc zero) zero h k = omega arith
differ-lt (suc zero) (suc zero) h k = omega arith
differ-lt (suc zero) (suc (suc b)) h k = absurd (omega arith)
differ-lt (suc (suc a)) b h k = absurd (omega arith)

pub digit-bit_and : (k x y : ℕ) → digit k (bit_and x y) ≡ min (digit k x) (digit k y)
digit-bit_and = digit_of_lowest bit_and min bit_and_lowest (λ a b h k. omega arith)

pub digit-bit_or : (k x y : ℕ) → digit k (bit_or x y) ≡ max (digit k x) (digit k y)
digit-bit_or = digit_of_lowest bit_or max bit_or_lowest (λ a b h k. omega arith)

pub digit-bit_xor : (k x y : ℕ) → digit k (bit_xor x y) ≡ differ (digit k x) (digit k y)
digit-bit_xor = digit_of_lowest bit_xor differ bit_xor_lowest differ-lt

differ_cancel : (a b : ℕ) → a < 2 → b < 2 → differ (differ a b) b ≡ a
differ_cancel zero zero h k = refl
differ_cancel zero (suc zero) h k = refl
differ_cancel (suc zero) zero h k = refl
differ_cancel (suc zero) (suc zero) h k = refl
differ_cancel (suc (suc a)) b h k = absurd (omega arith)
differ_cancel zero (suc (suc b)) h k = absurd (omega arith)
differ_cancel (suc zero) (suc (suc b)) h k = absurd (omega arith)

-- Numbers with the same digits are equal.
pub digit_ext : (n x y : ℕ) → x < n → y < n → ((k : ℕ) → digit k x ≡ digit k y) → x ≡ y
digit_ext zero x y h k same = absurd (omega arith)
digit_ext (suc n) zero zero h k same = refl
digit_ext (suc n) zero (suc y) h k same =
    omega (arith, same 0, digit_ext n 0 (suc y / 2) (omega arith) (omega arith) (λ i. same (suc i)))
digit_ext (suc n) (suc x) y h k same =
    omega (
      arith,
      same 0,
      digit_ext n (suc x / 2) (y / 2) (omega arith) (omega arith) (λ i. same (suc i)),
    )

pub bit_xor_cancel : (x y : ℕ) → bit_xor (bit_xor x y) y ≡ x
bit_xor_cancel x y =
    let z = bit_xor (bit_xor x y) y in
    digit_ext (z + x + 1) z x (omega arith) (omega arith) (λ k.
      digit-bit_xor k (bit_xor x y) y
      ∙ ap (λ d. differ d (digit k y)) (digit-bit_xor k x y)
      ∙ differ_cancel (digit k x) (digit k y) (digit-lt k x) (digit-lt k y))
