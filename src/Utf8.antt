-- ===== src/Utf8.antt =====
-- util-src/encodings.c: the check of UTF-8, utf8_decode and check_utf8.
-- A string is followed by a NUL. Masks and shifts are written as arithmetic: `c & 0x40` is a digit of
-- `c`, and an `|` of disjoint bits is a sum.
pub mod Scalar
pub mod Loop
pub mod Fields
pub mod Decode
pub mod Encode
pub mod Valid
pub mod Flaws
mod Tests
use mathlib.Core.Option
use prosody.Base.{
  ℕ, zero, suc, ◌+◌, ◌*◌, ◌/◌, ◌%◌, ◌^◌, Bool, true, false, ◌||◌, ◌&&◌, List, [], ◌∷◌, Option, none,
  some, length, get_or, ltb, leb, ◌==◌, if◌then◌else◌,
}
use prosody.Base.Int.{pos}
use prosody.Base.Word.{long_of_size}
use prosody.Base.Lua.{Value, nil, boolean, integer, Outcome, ret, raise, fault, ◌>>=◌}

-- Unsigned 32-bit arithmetic.
abbrev pub word : ℕ → ℕ
word n = n % 2 ^ 32

abbrev pub limits : List ℕ
limits = 255 ∷ 127 ∷ 2047 ∷ 65535 ∷ []

-- `c & 0x40`
abbrev pub has_next : ℕ → Bool
has_next c = c / 64 % 2 == 1

-- `(cc & 0xC0) == 0x80`
abbrev pub is_continuation : ℕ → Bool
is_continuation cc = cc / 64 % 4 == 2

-- Behind the loop, with `count` continuation bytes read and the bytes `s` behind them: the value and
-- these bytes, or `none` for NULL. A shift by the width of the type or more is a fault.
unfoldable pub finish : List ℕ → ℕ → ℕ → ℕ → Outcome (Option (ℕ × List ℕ))
finish s c res count =
    let value = word (res + word (c % 128 * 2 ^ (count * 5))) in
    if ltb 31 (count * 5)
    then fault
    else if ltb 3 count
        || ltb 1114111 value
        || leb value (get_or limits count 0)
        || (leb 55296 value && leb value 57343)
    then ret none
    else ret (some (value, s))

-- The `while`, on the bytes that are still to be read; the NUL behind them is no continuation byte.
unfoldable pub continue_loop : List ℕ → ℕ → ℕ → ℕ → Outcome (Option (ℕ × List ℕ))
continue_loop [] c res count = if has_next c then ret none else finish [] c res count
continue_loop (cc ∷ s) c res count =
    let rest = continue_loop s (word (c * 2)) (word (res * 64) + cc % 64) (count + 1) in
    if has_next c
    then if is_continuation cc then rest else ret none
    else finish (cc ∷ s) c res count

-- The value and the bytes behind the sequence, or `none` for NULL.
unfoldable pub utf8_decode : ℕ → List ℕ → Outcome (Option (ℕ × List ℕ))
utf8_decode c s = if ltb c 128 then ret (some (c, s)) else continue_loop s c 0 0

-- The `while` of `check_utf8`, on the bytes from `pos` on: whether the string is valid. Behind the
-- last byte the NUL is decoded as itself, and the loop ends. `none` means that the fuel ran out.
unfoldable pub check_loop : ℕ → List ℕ → Option (Outcome Bool)
check_loop fuel [] = some (ret true)
check_loop zero (c ∷ s) = none
check_loop (suc fuel) (c ∷ s) = elim (utf8_decode c s) [
  | ret (some (v, rest)) ↦ check_loop fuel rest
  | ret none ↦ some (ret false)
  | raise ↦ some raise
  | fault ↦ some fault
]

-- Each round reads a byte or more.
unfoldable pub check_utf8 : List ℕ → Option (Outcome Bool)
check_utf8 s = check_loop (length s) s

-- `Lutf8_valid`
pub utf8_valid : List ℕ → Option (Outcome Value)
utf8_valid s = Option.map (λ o. o >>= λ b. ret (boolean b)) (check_utf8 s)

-- `Lutf8_length`; nil stands for nil and its message.
pub utf8_length : List ℕ → Option (Outcome Value)
utf8_length s =
    Option.map (λ o. o >>= λ b. ret (if b then integer (long_of_size (length s)) else nil))
      (check_utf8 s)
