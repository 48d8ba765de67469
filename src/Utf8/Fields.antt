-- ===== src/Utf8/Fields.antt =====
-- The bits of a sequence: the value that `utf8_decode` forms of it, and its encoding.
use prosody.Base.{ℕ, ◌+◌, ◌-◌, ◌*◌, ◌%◌, ◌≤◌, ◌<◌, ◌≡◌, [], ◌∷◌, arith}
use prosody.Utf8.{word}
use prosody.Utf8.Scalar.{encode_char}
use prosody.Utf8.Loop.{value_of}

-- The shifted first byte and the bits read, after each round.
abbrev pub shifted : ℕ → ℕ
shifted c = word (c * 2)

abbrev pub joined : ℕ → ℕ → ℕ
joined res a = word (res * 64) + a % 64

pub value_two :
    (c a : ℕ) → 192 ≤ c → c < 224 → value_of (shifted c) (joined 0 a) 1 ≡ (c - 192) * 64 + a % 64
value_two c a h k = omega arith

pub value_three :
    (c a b : ℕ)
    → 224 ≤ c
    → c < 240
    → value_of (shifted (shifted c)) (joined (joined 0 a) b) 2
      ≡ (c - 224) * 4096 + a % 64 * 64 + b % 64
value_three c a b h k = omega arith

pub value_four :
    (c a b d : ℕ)
    → 240 ≤ c
    → c < 248
    → value_of (shifted (shifted (shifted c))) (joined (joined (joined 0 a) b) d) 3
      ≡ (c - 240) * 262144 + a % 64 * 4096 + b % 64 * 64 + d % 64
value_four c a b d h k = omega arith

pub encode_two :
    (c x : ℕ)
    → 192 ≤ c
    → c < 224
    → x < 64
    → 127 < (c - 192) * 64 + x
    → encode_char ((c - 192) * 64 + x) ≡ c ∷ (128 + x) ∷ []
encode_two c x h k l m = ground arith

pub encode_three :
    (c x y : ℕ)
    → 224 ≤ c
    → c < 240
    → x < 64
    → y < 64
    → 2047 < (c - 224) * 4096 + x * 64 + y
    → encode_char ((c - 224) * 4096 + x * 64 + y) ≡ c ∷ (128 + x) ∷ (128 + y) ∷ []
encode_three c x y h k l m n = ground arith

pub encode_four :
    (c x y z : ℕ)
    → 240 ≤ c
    → x < 64
    → y < 64
    → z < 64
    → 65535 < (c - 240) * 262144 + x * 4096 + y * 64 + z
    → encode_char ((c - 240) * 262144 + x * 4096 + y * 64 + z)
      ≡ c ∷ (128 + x) ∷ (128 + y) ∷ (128 + z) ∷ []
encode_four c x y z h k l m n = ground arith
