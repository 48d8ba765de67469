-- ===== src/Base/Word.antt =====
-- The integer types of the target, LP64: `size_t` and `unsigned long` are numbers below 2 ^ 64,
-- `long` and `lua_Integer` are integers of 64 bits, `int` of 32.
use Prim.Native.Nat.{ℕ, ◌+◌, ◌-◌, ◌%◌, ◌^◌}
use prosody.Base.Tests.{ltb, if◌then◌else◌}
use prosody.Base.Int.{ℤ, pos, negsuc}

abbrev pub size_mod : ℕ
size_mod = 2 ^ 64

abbrev pub add_size : ℕ → ℕ → ℕ
add_size a b = (a + b) % size_mod

-- `-` on ℕ stops at 0, so the modulus is added first; `b` is below the modulus.
abbrev pub sub_size : ℕ → ℕ → ℕ
sub_size a b = (a + size_mod - b) % size_mod

-- The conversion of a signed integer to `size_t`.
abbrev pub size_of_ℤ : ℤ → ℕ
size_of_ℤ (pos n) = n % size_mod
size_of_ℤ (negsuc n) = size_mod - 1 - n % size_mod

-- The conversion of a `size_t` to `long` or `lua_Integer`.
abbrev pub long_of_size : ℕ → ℤ
long_of_size w = if ltb w (2 ^ 63) then pos w else negsuc (size_mod - w - 1)

-- The conversion of a `size_t` to `int`, which keeps the low 32 bits.
abbrev pub int_of_size : ℕ → ℤ
int_of_size w =
    let low = w % 2 ^ 32 in if ltb low (2 ^ 31) then pos low else negsuc (2 ^ 32 - low - 1)
