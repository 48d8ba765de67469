-- ===== src/Strbitop.antt =====
-- util-src/strbitop.c: `util.strbitop`, the bit operations on strings.
-- `char` is a byte here: `&`, `|` and `^` of two `char`, kept in a `char`, are those of the bytes.
pub mod Digits
pub mod Prefix
mod Tests
use Prim.Native.Nat.{bit_and, bit_or, bit_xor}
use prosody.Base.{
  ℕ, zero, suc, ◌+◌, ◌*◌, ◌%◌, Bool, ◌||◌, List, [], ◌∷◌, length, get_or, ltb, ◌==◌, if◌then◌else◌,
}
use prosody.Base.Bits.{digit}

-- `str_a[i] & str_b[i % b]`, from `i` on with `left` rounds to go.
pub and_loop : ℕ → ℕ → List ℕ → List ℕ → List ℕ
and_loop zero i a b = []
and_loop (suc left) i a b =
    bit_and (get_or a i 0) (get_or b (i % length b) 0) ∷ and_loop left (i + 1) a b

pub strop_and : List ℕ → List ℕ → List ℕ
strop_and a b = if length a == 0 || length b == 0 then a else and_loop (length a) 0 a b

-- `str_a[i] | str_b[i % b]`
pub or_loop : ℕ → ℕ → List ℕ → List ℕ → List ℕ
or_loop zero i a b = []
or_loop (suc left) i a b =
    bit_or (get_or a i 0) (get_or b (i % length b) 0) ∷ or_loop left (i + 1) a b

pub strop_or : List ℕ → List ℕ → List ℕ
strop_or a b = if length a == 0 || length b == 0 then a else or_loop (length a) 0 a b

-- `str_a[i] ^ str_b[i % b]`
pub xor_loop : ℕ → ℕ → List ℕ → List ℕ → List ℕ
xor_loop zero i a b = []
xor_loop (suc left) i a b =
    bit_xor (get_or a i 0) (get_or b (i % length b) 0) ∷ xor_loop left (i + 1) a b

pub strop_xor : List ℕ → List ℕ → List ℕ
strop_xor a b = if length a == 0 || length b == 0 then a else xor_loop (length a) 0 a b

-- The tests of `c & 0x80` to `c & 0x01`.
pub clz : ℕ → ℕ
clz c =
    if digit 7 c == 1
    then 0
    else if digit 6 c == 1
    then 1
    else if digit 5 c == 1
    then 2
    else if digit 4 c == 1
    then 3
    else if digit 3 c == 1
    then 4
    else if digit 2 c == 1
    then 5
    else if digit 1 c == 1
    then 6
    else if digit 0 c == 1
    then 7
    else 8

-- The loop over the bytes that both strings have, from `i` on with `left` rounds to go.
pub prefix_loop : ℕ → ℕ → List ℕ → List ℕ → ℕ
prefix_loop zero i a b = i * 8
prefix_loop (suc left) i a b =
    let rest = prefix_loop left (i + 1) a b in
    if get_or a i 0 == get_or b i 0
    then rest
    else i * 8 + clz (bit_xor (get_or a i 0) (get_or b i 0))

pub strop_common_prefix_bits : List ℕ → List ℕ → ℕ
strop_common_prefix_bits a b =
    prefix_loop (if ltb (length a) (length b) then length a else length b) 0 a b
