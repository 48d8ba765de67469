-- ===== src/Strbitop/Digits.antt =====
-- `sand`, `sor` and `sxor` digit by digit, the second string repeated as often as is needed.
use Prim.Native.Nat.{bit_and, bit_or, bit_xor, min, max, differ}
use prosody.Base.{
  ℕ, zero, suc, ◌+◌, ◌%◌, ◌<◌, ◌≡◌, ◌⊎◌, inl, inr, ◌∙◌, refl, ap, ◌||◌, List, [], ◌∷◌, length,
  get_or, get_or_ext, ◌==◌, if◌then◌else◌, arith,
}
use prosody.Base.Bits.{digit, digit-bit_and, digit-bit_or, digit-bit_xor, bit_xor_cancel}
use prosody.Strbitop.{and_loop, or_loop, xor_loop, strop_and, strop_or, strop_xor}

-- `r` is `a` with each digit combined with that of `b` by `op`; `a` itself where one is empty.
abbrev pub Combines : (ℕ → ℕ → ℕ) → List ℕ → List ℕ → List ℕ → Type 0
Combines op a b r =
    (length r ≡ length a)
    × (length b ≡ 0 → r ≡ a)
    × (0 < length b
        → (i : ℕ) → i < length a
        → (k : ℕ)
        → digit k (get_or r i 0)
          ≡ op (digit k (get_or a i 0)) (digit k (get_or b (i % length b) 0)))

-- The three loops have one shape.
abbrev loop_of : (ℕ → ℕ → ℕ) → ℕ → ℕ → List ℕ → List ℕ → List ℕ
loop_of f zero i a b = []
loop_of f (suc left) i a b =
    f (get_or a i 0) (get_or b (i % length b) 0) ∷ loop_of f left (i + 1) a b

and_loop-eq-loop_of : (left i : ℕ) (a b : List ℕ) → and_loop left i a b ≡ loop_of bit_and left i a b
unfolding and_loop
and_loop-eq-loop_of zero i a b = refl
and_loop-eq-loop_of (suc left) i a b =
    ap (λ r. bit_and (get_or a i 0) (get_or b (i % length b) 0) ∷ r)
      (and_loop-eq-loop_of left (i + 1) a b)

or_loop-eq-loop_of : (left i : ℕ) (a b : List ℕ) → or_loop left i a b ≡ loop_of bit_or left i a b
unfolding or_loop
or_loop-eq-loop_of zero i a b = refl
or_loop-eq-loop_of (suc left) i a b =
    ap (λ r. bit_or (get_or a i 0) (get_or b (i % length b) 0) ∷ r)
      (or_loop-eq-loop_of left (i + 1) a b)

xor_loop-eq-loop_of : (left i : ℕ) (a b : List ℕ) → xor_loop left i a b ≡ loop_of bit_xor left i a b
unfolding xor_loop
xor_loop-eq-loop_of zero i a b = refl
xor_loop-eq-loop_of (suc left) i a b =
    ap (λ r. bit_xor (get_or a i 0) (get_or b (i % length b) 0) ∷ r)
      (xor_loop-eq-loop_of left (i + 1) a b)

module _ (f : ℕ → ℕ → ℕ) where
  abbrev strop : List ℕ → List ℕ → List ℕ
  strop a b = if length a == 0 || length b == 0 then a else loop_of f (length a) 0 a b

  length-loop_of : (left i : ℕ) (a b : List ℕ) → length (loop_of f left i a b) ≡ left
  length-loop_of zero i a b = refl
  length-loop_of (suc left) i a b = ap suc (length-loop_of left (i + 1) a b)

  get_or-loop_of :
      (left i j : ℕ) (a b : List ℕ)
      → j < left
      → get_or (loop_of f left i a b) j 0 ≡ f (get_or a (i + j) 0) (get_or b ((i + j) % length b) 0)
  get_or-loop_of zero i j a b h = absurd (omega arith)
  get_or-loop_of (suc left) i zero a b h =
      let e : i ≡ i + 0 = omega arith in ap (λ n. f (get_or a n 0) (get_or b (n % length b) 0)) e
  get_or-loop_of (suc left) i (suc j) a b h =
      let e : i + 1 + j ≡ i + suc j = omega arith in
      get_or-loop_of left (i + 1) j a b (omega arith)
      ∙ ap (λ n. f (get_or a n 0) (get_or b (n % length b) 0)) e

  length-strop : (a b : List ℕ) → length (strop a b) ≡ length a
  length-strop a b = ground (arith, length-loop_of (length a) 0 a b)

  strop_empty : (a b : List ℕ) → length b ≡ 0 → strop a b ≡ a
  strop_empty a b h = ground arith

  get_or-strop :
      (a b : List ℕ) (i : ℕ)
      → 0 < length b
      → i < length a
      → get_or (strop a b) i 0 ≡ f (get_or a i 0) (get_or b (i % length b) 0)
  get_or-strop a b i h k = ground (arith, get_or-loop_of (length a) 0 i a b)

  strop-Combines :
      (op : ℕ → ℕ → ℕ)
      → ((k x y : ℕ) → digit k (f x y) ≡ op (digit k x) (digit k y))
      → (a b : List ℕ) → Combines op a b (strop a b)
  strop-Combines op law a b = (
    length-strop a b,
    strop_empty a b,
    λ h i k d.
        ap (digit d) (get_or-strop a b i h k) ∙ law d (get_or a i 0) (get_or b (i % length b) 0),
  )

strop_and-strop : (a b : List ℕ) → strop_and a b ≡ strop bit_and a b
unfolding strop_and
strop_and-strop a b =
    ap (λ r. if length a == 0 || length b == 0 then a else r) (and_loop-eq-loop_of (length a) 0 a b)

strop_or-strop : (a b : List ℕ) → strop_or a b ≡ strop bit_or a b
unfolding strop_or
strop_or-strop a b =
    ap (λ r. if length a == 0 || length b == 0 then a else r) (or_loop-eq-loop_of (length a) 0 a b)

strop_xor-strop : (a b : List ℕ) → strop_xor a b ≡ strop bit_xor a b
unfolding strop_xor
strop_xor-strop a b =
    ap (λ r. if length a == 0 || length b == 0 then a else r) (xor_loop-eq-loop_of (length a) 0 a b)

-- The results of `sand`, `sor` and `sxor` are as long as their first argument, and each binary digit
-- is the smaller, the larger, or whether they differ, of those of the first argument and of the
-- second one repeated; where the second one is empty they are the first one.
pub strop-Combines_each :
    (a b : List ℕ)
    → Combines min a b (strop_and a b)
      × Combines max a b (strop_or a b)
      × Combines differ a b (strop_xor a b)
strop-Combines_each a b = (
  rw (strop_and-strop a b) (strop-Combines bit_and min digit-bit_and a b),
  rw (strop_or-strop a b) (strop-Combines bit_or max digit-bit_or a b),
  rw (strop_xor-strop a b) (strop-Combines bit_xor differ digit-bit_xor a b),
)

-- `sxor` twice with one key gives the string back.
pub strop_xor_twice : (a b : List ℕ) → strop_xor (strop_xor a b) b ≡ a
strop_xor_twice a b =
    strop_xor-strop (strop_xor a b) b
    ∙ ap (λ r. strop bit_xor r b) (strop_xor-strop a b)
    ∙ elim (empty_or_not b) [
      | inl h ↦ strop_empty bit_xor (strop bit_xor a b) b h ∙ strop_empty bit_xor a b h
      | inr h ↦
          get_or_ext 0 (strop bit_xor (strop bit_xor a b) b) a
            (length-strop bit_xor (strop bit_xor a b) b ∙ length-strop bit_xor a b)
            (λ i k.
              let below : i < length a =
                omega (
                  arith,
                  k,
                  length-strop bit_xor (strop bit_xor a b) b,
                  length-strop bit_xor a b,
                ) in
              get_or-strop bit_xor (strop bit_xor a b) b i h
                (omega (arith, below, length-strop bit_xor a b))
              ∙ ap (λ x. bit_xor x (get_or b (i % length b) 0)) (get_or-strop bit_xor a b i h below)
              ∙ bit_xor_cancel (get_or a i 0) (get_or b (i % length b) 0))
    ]
  where
    empty_or_not : (b : List ℕ) → (length b ≡ 0) ⊎ (0 < length b)
    empty_or_not [] = inl refl
    empty_or_not (x ∷ b) = inr (omega arith)
