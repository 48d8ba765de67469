-- ===== src/Strbitop/Prefix.antt =====
-- `common_prefix_bits` against the digits of the two strings, written one behind the other.
use Prim.Native.Nat.{bit_xor, differ}
use mathlib.Core.List.{append_assoc}
use prosody.Base.{
  ℕ, zero, suc, ◌+◌, ◌*◌, ◌<◌, ◌≡◌, ◌≢◌, ◌∙◌, refl, sym, ap, ap₂, false, List, [], ◌∷◌, ◌++◌,
  length, get_or, ltb, ◌==◌, if◌then◌else◌, arith, All, ℕ_discrete, length-append,
}
use prosody.Base.Bits.{digit, digit-bit_xor, digit-lt}
use prosody.Strbitop.{clz, prefix_loop, strop_common_prefix_bits}

-- The digits of the bytes of a string, the highest of each first.
abbrev pub bits_of : List ℕ → List ℕ
bits_of [] = []
bits_of (x ∷ s) =
    digit 7 x
    ∷ digit 6 x
    ∷ digit 5 x
    ∷ digit 4 x
    ∷ digit 3 x
    ∷ digit 2 x
    ∷ digit 1 x
    ∷ digit 0 x
    ∷ bits_of s

-- The number of leading places at which two lists agree.
abbrev pub agreement : List ℕ → List ℕ → ℕ
agreement [] ys = 0
agreement (x ∷ xs) [] = 0
agreement (x ∷ xs) (y ∷ ys) = if x == y then suc (agreement xs ys) else 0

-- One test of `clz`, and one place of the two strings.
clz_step :
    (t d e n next r : ℕ)
    → t ≡ differ d e
    → d < 2
    → e < 2
    → (d ≡ e → next ≡ suc n + r)
    → (if t == 1 then n else next) ≡ n + (if d == e then suc r else 0)
clz_step t zero zero n next r h hd he k = rw h (k refl ∙ omega arith)
clz_step t zero (suc zero) n next r h hd he k = rw h (omega arith)
clz_step t (suc zero) zero n next r h hd he k = rw h (omega arith)
clz_step t (suc zero) (suc zero) n next r h hd he k = rw h (k refl ∙ omega arith)
clz_step t zero (suc (suc e)) n next r h hd he k = absurd (omega arith)
clz_step t (suc zero) (suc (suc e)) n next r h hd he k = absurd (omega arith)
clz_step t (suc (suc d)) e n next r h hd he k = absurd (omega arith)

-- Bytes with the same eight digits are equal.
byte_ext :
    (x y : ℕ)
    → x < 256
    → y < 256
    → digit 7 x ≡ digit 7 y
    → digit 6 x ≡ digit 6 y
    → digit 5 x ≡ digit 5 y
    → digit 4 x ≡ digit 4 y
    → digit 3 x ≡ digit 3 y
    → digit 2 x ≡ digit 2 y
    → digit 1 x ≡ digit 1 y
    → digit 0 x ≡ digit 0 y
    → x ≡ y
byte_ext x y hx hy e7 e6 e5 e4 e3 e2 e1 e0 = omega arith

-- Where two bytes differ, `clz` counts the leading digits that they share.
clz-agreement :
    (x y : ℕ) (s t : List ℕ)
    → x < 256
    → y < 256
    → x ≢ y
    → clz (bit_xor x y) ≡ agreement (bits_of (x ∷ s)) (bits_of (y ∷ t))
unfolding clz
clz-agreement x y s t hx hy ne =
    let test = λ (k : ℕ). digit-bit_xor k x y in
    let dx = λ (k : ℕ). digit-lt k x in
    let dy = λ (k : ℕ). digit-lt k y in
    let count : clz (bit_xor x y) ≡ 0 + agreement (bits_of (x ∷ s)) (bits_of (y ∷ t)) =
      clz_step _ (digit 7 x) (digit 7 y) 0 _ _ (test 7) (dx 7) (dy 7) λ e7.
        clz_step _ (digit 6 x) (digit 6 y) 1 _ _ (test 6) (dx 6) (dy 6) λ e6.
          clz_step _ (digit 5 x) (digit 5 y) 2 _ _ (test 5) (dx 5) (dy 5) λ e5.
            clz_step _ (digit 4 x) (digit 4 y) 3 _ _ (test 4) (dx 4) (dy 4) λ e4.
              clz_step _ (digit 3 x) (digit 3 y) 4 _ _ (test 3) (dx 3) (dy 3) λ e3.
                clz_step _ (digit 2 x) (digit 2 y) 5 _ _ (test 2) (dx 2) (dy 2) λ e2.
                  clz_step _ (digit 1 x) (digit 1 y) 6 _ _ (test 1) (dx 1) (dy 1) λ e1.
                    clz_step _ (digit 0 x) (digit 0 y) 7 8 _ (test 0) (dx 0) (dy 0)
                      λ e0. absurd (ne (byte_ext x y hx hy e7 e6 e5 e4 e3 e2 e1 e0)) in
    count ∙ omega arith

shared_byte :
    (x : ℕ) (s t : List ℕ)
    → agreement (bits_of (x ∷ s)) (bits_of (x ∷ t)) ≡ 8 + agreement (bits_of s) (bits_of t)
shared_byte x s t = ground arith

-- The number of places that two strings have both.
abbrev shared : List ℕ → List ℕ → ℕ
shared [] b = 0
shared (x ∷ a) [] = 0
shared (x ∷ a) (y ∷ b) = suc (shared a b)

shared_lem :
    (a b : List ℕ) → (if ltb (length a) (length b) then length a else length b) ≡ shared a b
shared_lem [] [] = refl
shared_lem [] (y ∷ b) = ground arith
shared_lem (x ∷ a) [] = ground arith
shared_lem (x ∷ a) (y ∷ b) = ground (arith, shared_lem a b)

get_or-behind : (p : List ℕ) (x i : ℕ) (s : List ℕ) → length p ≡ i → get_or (p ++ (x ∷ s)) i 0 ≡ x
get_or-behind [] x zero s h = refl
get_or-behind [] x (suc i) s h = absurd (omega arith)
get_or-behind (y ∷ p) x zero s h = absurd (omega arith)
get_or-behind (y ∷ p) x (suc i) s h = get_or-behind p x i s (omega arith)

loop_same :
    (left i x : ℕ) (a b : List ℕ)
    → get_or a i 0 ≡ x
    → get_or b i 0 ≡ x
    → prefix_loop (suc left) i a b ≡ prefix_loop left (i + 1) a b
unfolding prefix_loop
loop_same left i x a b e f = ground (arith, e, f)

loop_differs :
    (left i x y : ℕ) (a b : List ℕ)
    → get_or a i 0 ≡ x
    → get_or b i 0 ≡ y
    → x ≢ y
    → prefix_loop (suc left) i a b ≡ i * 8 + clz (bit_xor x y)
unfolding prefix_loop
loop_differs left i x y a b e f ne = rw (e, f) (rw (not_same x y ne) refl)
  where
    not_same : (x y : ℕ) → x ≢ y → (x == y) ≡ false
    not_same x y ne = ground arith

-- The loop, behind `i` bytes that both strings have.
prefix_loop-agreement :
    (i : ℕ) (a b p q : List ℕ)
    → All (λ x. x < 256) a
    → All (λ x. x < 256) b
    → length p ≡ i
    → length q ≡ i
    → prefix_loop (shared a b) i (p ++ a) (q ++ b) ≡ i * 8 + agreement (bits_of a) (bits_of b)
prefix_loop-agreement i [] b p q ha hb lp lq = unfold prefix_loop in omega arith
prefix_loop-agreement i (x ∷ a) [] p q ha hb lp lq = unfold prefix_loop in omega arith
prefix_loop-agreement i (x ∷ a) (y ∷ b) p q ha hb lp lq =
    let at_p = get_or-behind p x i a lp in
    let at_q = get_or-behind q y i b lq in
    elim (ℕ_discrete x y) [
      | yes e ↦
          let again =
            prefix_loop-agreement (i + 1) a b (p ++ (x ∷ [])) (q ++ (y ∷ [])) ha.1 hb.1
              (omega (arith, length-append p (x ∷ []))) (omega (arith, length-append q (y ∷ []))) in
          loop_same (shared a b) i x (p ++ (x ∷ a)) (q ++ (y ∷ b)) at_p (at_q ∙ sym e)
          ∙ ap₂ (prefix_loop (shared a b) (i + 1)) (sym (append_assoc p (x ∷ []) a))
              (sym (append_assoc q (y ∷ []) b))
          ∙ again
          ∙ omega (arith, shared_byte x a b)
          ∙ ap (λ z. i * 8 + agreement (bits_of (x ∷ a)) (bits_of (z ∷ b))) e
      | no ne ↦
          loop_differs (shared a b) i x y (p ++ (x ∷ a)) (q ++ (y ∷ b)) at_p at_q ne
          ∙ ap (λ n. i * 8 + n) (clz-agreement x y a b ha.0 hb.0 ne)
    ]

-- `common_prefix_bits` of two strings of bytes is the number of leading binary digits that they
-- share, each byte from its highest digit on.
pub common_prefix_bits_lem :
    (a b : List ℕ)
    → All (λ x. x < 256) a
    → All (λ x. x < 256) b
    → strop_common_prefix_bits a b ≡ agreement (bits_of a) (bits_of b)
unfolding strop_common_prefix_bits
common_prefix_bits_lem a b ha hb =
    ap (λ n. prefix_loop n 0 a b) (shared_lem a b)
    ∙ prefix_loop-agreement 0 a b [] [] ha hb refl refl
    ∙ omega arith
