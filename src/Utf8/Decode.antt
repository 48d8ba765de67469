-- ===== src/Utf8/Decode.antt =====
-- `utf8_decode` against the encoding: what it takes.
use prosody.Base.{
  ℕ, ◌+◌, ◌%◌, ◌≤◌, ◌<◌, ◌≡◌, ◌∙◌, sym, ap, ap₂, subst, true, false, List, [], ◌∷◌, ◌++◌, some,
  arith, dec_lt, All,
}
use prosody.Base.Lua.{ret}
use prosody.Utf8.{has_next, is_continuation, continue_loop, utf8_decode}
use prosody.Utf8.Scalar.{IsScalar, encode_char}
use prosody.Utf8.Loop.{finish-some, loop_stop, loop_next-some, loop_many}
use prosody.Utf8.Fields.{
  shifted, joined, value_two, value_three, value_four, encode_two, encode_three, encode_four,
}

abbrev pub IsByte : ℕ → Type 0
IsByte b = b < 256

continuation_byte : (a : ℕ) → a < 256 → is_continuation a ≡ true → 128 + a % 64 ≡ a
continuation_byte a h k = ground arith

-- What a success tells of the bytes.
abbrev pub Decoded : ℕ → List ℕ → ℕ → List ℕ → Type 0
Decoded c s v rest = IsScalar v × (c ∷ s ≡ encode_char v ++ rest)

-- The first byte of a sequence, and the bytes and the value of the others.
abbrev pub Succeeds : ℕ → List ℕ → ℕ → List ℕ → Type 0
Succeeds c s v rest = continue_loop s c 0 0 ≡ ret (some (v, rest))

pub has_first : (c : ℕ) → 192 ≤ c → c < 256 → has_next c ≡ true
has_first c h k = ground arith

pub ends_two : (c : ℕ) → 192 ≤ c → c < 224 → has_next (shifted c) ≡ false
ends_two c h k = ground arith

pub has_second : (c : ℕ) → 224 ≤ c → c < 256 → has_next (shifted c) ≡ true
has_second c h k = ground arith

pub ends_three : (c : ℕ) → 224 ≤ c → c < 240 → has_next (shifted (shifted c)) ≡ false
ends_three c h k = ground arith

pub has_third : (c : ℕ) → 240 ≤ c → c < 256 → has_next (shifted (shifted c)) ≡ true
has_third c h k = ground arith

pub ends_four : (c : ℕ) → 240 ≤ c → c < 248 → has_next (shifted (shifted (shifted c))) ≡ false
ends_four c h k = ground arith

has_fourth : (c : ℕ) → 248 ≤ c → c < 256 → has_next (shifted (shifted (shifted c))) ≡ true
has_fourth c h k = ground arith

two-Decoded :
    (c v : ℕ) (s rest : List ℕ)
    → 192 ≤ c
    → c < 224
    → All IsByte s
    → Succeeds c s v rest
    → Decoded c s v rest
two-Decoded c v s rest h k bytes e =
    let (a, s1, p, ca, e1) = loop_next-some s c 0 0 (v, rest) (has_first c h (omega arith)) e in
    let b1 = subst (All IsByte) p bytes in
    let (_, q, r, accepted) =
      finish-some s1 rest (shifted c) (joined 0 a) 1 v
        (sym (loop_stop s1 (shifted c) (joined 0 a) 1 (ends_two c h k)) ∙ e1) in
    let value = q ∙ value_two c a h k in
    let coded =
      ap encode_char value
      ∙ encode_two c (a % 64) h k (omega arith) (omega (arith, value, accepted.0)) in
    let own = continuation_byte a b1.0 ca in
    (accepted.1, ap (λ xs. c ∷ xs) p ∙ sym (ap₂ ◌++◌ (coded ∙ ap (λ x. c ∷ x ∷ []) own) r))

three-Decoded :
    (c v : ℕ) (s rest : List ℕ)
    → 224 ≤ c
    → c < 240
    → All IsByte s
    → Succeeds c s v rest
    → Decoded c s v rest
three-Decoded c v s rest h k bytes e =
    let (a, s1, p, ca, e1) =
      loop_next-some s c 0 0 (v, rest) (has_first c (omega arith) (omega arith)) e in
    let b1 = subst (All IsByte) p bytes in
    let (b, s2, p2, cb, e2) =
      loop_next-some s1 (shifted c) (joined 0 a) 1 (v, rest) (has_second c h (omega arith)) e1 in
    let b2 = subst (All IsByte) p2 b1.1 in
    let (_, q, r, accepted) =
      finish-some s2 rest (shifted (shifted c)) (joined (joined 0 a) b) 2 v (
        sym (loop_stop s2 (shifted (shifted c)) (joined (joined 0 a) b) 2 (ends_three c h k))
        ∙ e2) in
    let value = q ∙ value_three c a b h k in
    let coded =
      ap encode_char value
      ∙ encode_three c (a % 64) (b % 64) h k (omega arith) (omega arith)
          (omega (arith, value, accepted.0)) in
    let own =
      ap₂ (λ x y. c ∷ x ∷ y ∷ []) (continuation_byte a b1.0 ca) (continuation_byte b b2.0 cb) in
    (accepted.1, ap (λ xs. c ∷ xs) (p ∙ ap (λ xs. a ∷ xs) p2) ∙ sym (ap₂ ◌++◌ (coded ∙ own) r))

four-Decoded :
    (c v : ℕ) (s rest : List ℕ)
    → 240 ≤ c
    → c < 248
    → All IsByte s
    → Succeeds c s v rest
    → Decoded c s v rest
four-Decoded c v s rest h k bytes e =
    let (a, s1, p, ca, e1) =
      loop_next-some s c 0 0 (v, rest) (has_first c (omega arith) (omega arith)) e in
    let b1 = subst (All IsByte) p bytes in
    let (b, s2, p2, cb, e2) =
      loop_next-some s1 (shifted c) (joined 0 a) 1 (v, rest)
        (has_second c (omega arith) (omega arith)) e1 in
    let b2 = subst (All IsByte) p2 b1.1 in
    let (d, s3, p3, cd, e3) =
      loop_next-some s2 (shifted (shifted c)) (joined (joined 0 a) b) 2 (v, rest)
        (has_third c h (omega arith)) e2 in
    let b3 = subst (All IsByte) p3 b2.1 in
    let bits = joined (joined (joined 0 a) b) d in
    let last = shifted (shifted (shifted c)) in
    let (_, q, r, accepted) =
      finish-some s3 rest last bits 3 v (sym (loop_stop s3 last bits 3 (ends_four c h k)) ∙ e3) in
    let value = q ∙ value_four c a b d h k in
    let coded =
      ap encode_char value
      ∙ encode_four c (a % 64) (b % 64) (d % 64) h (omega arith) (omega arith) (omega arith)
          (omega (arith, value, accepted.0)) in
    let own =
      ap₂ (λ x xs. c ∷ x ∷ xs) (continuation_byte a b1.0 ca)
        (ap₂ (λ x y. x ∷ y ∷ []) (continuation_byte b b2.0 cb) (continuation_byte d b3.0 cd)) in
    (
      accepted.1,
      ap (λ xs. c ∷ xs) (p ∙ ap (λ xs. a ∷ xs) (p2 ∙ ap (λ xs. b ∷ xs) p3))
          ∙ sym (ap₂ ◌++◌ (coded ∙ own) r),
    )

more_fails : (c v : ℕ) (s rest : List ℕ) → 248 ≤ c → c < 256 → Succeeds c s v rest → ⊥
more_fails c v s rest h k e =
    let (a, s1, _, _, e1) = loop_next-some s c 0 0 (v, rest) (has_first c (omega arith) k) e in
    let (b, s2, _, _, e2) =
      loop_next-some s1 (shifted c) (joined 0 a) 1 (v, rest) (has_second c (omega arith) k) e1 in
    let (d, s3, _, _, e3) =
      loop_next-some s2 (shifted (shifted c)) (joined (joined 0 a) b) 2 (v, rest)
        (has_third c (omega arith) k) e2 in
    let (f, s4, _, _, e4) =
      loop_next-some s3 (shifted (shifted (shifted c))) (joined (joined (joined 0 a) b) d) 3
        (v, rest) (has_fourth c h k) e3 in
    loop_many s4 (shifted (shifted (shifted (shifted c))))
      (joined (joined (joined (joined 0 a) b) d) f) 4 (v, rest) (omega arith) e4

-- A continuation byte begins no sequence.
bare_fails : (c v : ℕ) (s rest : List ℕ) → 128 ≤ c → c < 192 → Succeeds c s v rest → ⊥
bare_fails c v s rest h k e =
    let f = finish-some s rest c 0 0 v (sym (loop_stop s c 0 0 (ground arith)) ∙ e) in
    omega (arith, f.1, f.3.0)

-- What `utf8_decode` takes of bytes is the encoding of the scalar value that it gives.
pub utf8_decode-Decoded :
    (c v : ℕ) (s rest : List ℕ)
    → IsByte c
    → All IsByte s
    → utf8_decode c s ≡ ret (some (v, rest))
    → Decoded c s v rest
unfolding utf8_decode
utf8_decode-Decoded c v s rest byte bytes e = elim (dec_lt c 128) [
  | yes h ↦ ground (arith, e)
  | no h ↦
      let e' : Succeeds c s v rest = ground (arith, e) in
      elim (dec_lt c 192) [
        | yes k ↦ absurd (bare_fails c v s rest (omega arith) k e')
        | no k ↦ elim (dec_lt c 224) [
          | yes l ↦ two-Decoded c v s rest (omega arith) l bytes e'
          | no l ↦ elim (dec_lt c 240) [
            | yes m ↦ three-Decoded c v s rest (omega arith) m bytes e'
            | no m ↦ elim (dec_lt c 248) [
              | yes n ↦ four-Decoded c v s rest (omega arith) n bytes e'
              | no n ↦ absurd (more_fails c v s rest (omega arith) byte e')
            ]
          ]
        ]
      ]
]
