-- ===== src/Utf8/Encode.antt =====
-- `utf8_decode` takes the encoding of every scalar value.
use prosody.Base.{
  ℕ, ◌+◌, ◌-◌, ◌*◌, ◌/◌, ◌%◌, ◌≤◌, ◌<◌, ◌≡◌, ◌∙◌, ap, ap₂, true, List, [], ◌∷◌, ◌++◌, some, arith,
  dec_lt,
}
use prosody.Base.Lua.{ret}
use prosody.Utf8.{is_continuation, continue_loop, utf8_decode}
use prosody.Utf8.Scalar.{IsScalar, encode_char}
use prosody.Utf8.Loop.{Accepted, finish-Accepted, loop_stop, loop_next}
use prosody.Utf8.Fields.{shifted, joined, value_two, value_three, value_four}
use prosody.Utf8.Decode.{
  Succeeds, has_first, ends_two, has_second, ends_three, has_third, ends_four,
}

continues : (x : ℕ) → x < 64 → is_continuation (128 + x) ≡ true
continues x h = ground arith

low_bits : (x : ℕ) → x < 64 → (128 + x) % 64 ≡ x
low_bits x h = omega arith

Succeeds-two :
    (c x v : ℕ) (rest : List ℕ)
    → 192 ≤ c
    → c < 224
    → x < 64
    → (c - 192) * 64 + x ≡ v
    → Accepted 1 v
    → Succeeds c ((128 + x) ∷ rest) v rest
Succeeds-two c x v rest h k l e accepted =
    let a = 128 + x in
    loop_next a c 0 0 rest (has_first c h (omega arith)) (continues x l)
    ∙ loop_stop rest (shifted c) (joined 0 a) 1 (ends_two c h k)
    ∙ finish-Accepted rest (shifted c) (joined 0 a) 1 v (omega arith)
        (value_two c a h k ∙ ap (λ y. (c - 192) * 64 + y) (low_bits x l) ∙ e) accepted

Succeeds-three :
    (c x y v : ℕ) (rest : List ℕ)
    → 224 ≤ c
    → c < 240
    → x < 64
    → y < 64
    → (c - 224) * 4096 + x * 64 + y ≡ v
    → Accepted 2 v
    → Succeeds c ((128 + x) ∷ (128 + y) ∷ rest) v rest
Succeeds-three c x y v rest h k l m e accepted =
    let a = 128 + x in
    let b = 128 + y in
    let bits = joined (joined 0 a) b in
    loop_next a c 0 0 (b ∷ rest) (has_first c (omega arith) (omega arith)) (continues x l)
    ∙ loop_next b (shifted c) (joined 0 a) 1 rest (has_second c h (omega arith)) (continues y m)
    ∙ loop_stop rest (shifted (shifted c)) bits 2 (ends_three c h k)
    ∙ finish-Accepted rest (shifted (shifted c)) bits 2 v (omega arith)
        (value_three c a b h k
          ∙ ap₂ (λ i j. (c - 224) * 4096 + i * 64 + j) (low_bits x l) (low_bits y m)
          ∙ e)
        accepted

Succeeds-four :
    (c x y z v : ℕ) (rest : List ℕ)
    → 240 ≤ c
    → c < 248
    → x < 64
    → y < 64
    → z < 64
    → (c - 240) * 262144 + x * 4096 + y * 64 + z ≡ v
    → Accepted 3 v
    → Succeeds c ((128 + x) ∷ (128 + y) ∷ (128 + z) ∷ rest) v rest
Succeeds-four c x y z v rest h k l m n e accepted =
    let a = 128 + x in
    let b = 128 + y in
    let d = 128 + z in
    let bits = joined (joined (joined 0 a) b) d in
    let last = shifted (shifted (shifted c)) in
    loop_next a c 0 0 (b ∷ d ∷ rest) (has_first c (omega arith) (omega arith)) (continues x l)
    ∙ loop_next b (shifted c) (joined 0 a) 1 (d ∷ rest) (has_second c (omega arith) (omega arith))
        (continues y m)
    ∙ loop_next d (shifted (shifted c)) (joined (joined 0 a) b) 2 rest (has_third c h (omega arith))
        (continues z n)
    ∙ loop_stop rest last bits 3 (ends_four c h k)
    ∙ finish-Accepted rest last bits 3 v (omega arith)
        (value_four c a b d h k ∙ omega (arith, e, low_bits x l, low_bits y m, low_bits z n))
        accepted

not_ascii : (c : ℕ) (s : List ℕ) → 128 ≤ c → utf8_decode c s ≡ continue_loop s c 0 0
unfolding utf8_decode
not_ascii c s h = ground arith

ascii : (c : ℕ) (s : List ℕ) → c < 128 → utf8_decode c s ≡ ret (some (c, s))
unfolding utf8_decode
ascii c s h = ground arith

-- The encoding of a scalar value, whatever follows it, is decoded to that value.
pub utf8_decode-encode_char :
    (v : ℕ) (rest : List ℕ)
    → IsScalar v
    → (c : ℕ) × (s : List ℕ) × (encode_char v ≡ c ∷ s)
      × (utf8_decode c (s ++ rest) ≡ ret (some (v, rest)))
utf8_decode-encode_char v rest scalar = elim (dec_lt v 128) [
  | yes h ↦ (v, [], ground arith, ascii v rest h)
  | no h ↦ elim (dec_lt v 2048) [
    | yes k ↦
        let c = 192 + v / 64 in
        let x = v % 64 in
        (
          c,
          (128 + x) ∷ [],
          ground arith,
          not_ascii c ((128 + x) ∷ rest) (omega arith)
              ∙ Succeeds-two c x v rest (omega arith) (omega arith) (omega arith) (omega arith)
                  (omega arith, scalar),
        )
    | no k ↦ elim (dec_lt v 65536) [
      | yes l ↦
          let c = 224 + v / 4096 in
          let x = v / 64 % 64 in
          let y = v % 64 in
          (
            c,
            (128 + x) ∷ (128 + y) ∷ [],
            ground arith,
            not_ascii c ((128 + x) ∷ (128 + y) ∷ rest) (omega arith)
                ∙ Succeeds-three c x y v rest (omega arith) (omega arith) (omega arith)
                    (omega arith) (omega arith) (omega arith, scalar),
          )
      | no l ↦
          let c = 240 + v / 262144 in
          let x = v / 4096 % 64 in
          let y = v / 64 % 64 in
          let z = v % 64 in
          (
            c,
            (128 + x) ∷ (128 + y) ∷ (128 + z) ∷ [],
            ground arith,
            not_ascii c ((128 + x) ∷ (128 + y) ∷ (128 + z) ∷ rest) (omega arith)
                ∙ Succeeds-four c x y z v rest (omega arith) (omega (arith, scalar)) (omega arith)
                    (omega arith) (omega arith) (omega arith) (omega arith, scalar),
          )
    ]
  ]
]
