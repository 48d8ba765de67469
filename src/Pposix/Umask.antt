-- ===== src/Pposix/Umask.antt =====
-- util-src/pposix.c: `lc_umask`, with what it uses of `strtoul` to base 8 and of `snprintf` with
-- "%03o".
pub mod RoundTrip
mod Tests
use prosody.Base.{
  ℕ, zero, suc, ◌+◌, ◌-◌, ◌*◌, ◌/◌, ◌%◌, ◌^◌, Bool, true, false, ◌&&◌, ◌||◌, List, [], ◌∷◌, ◌++◌,
  length, take, replicate, ltb, leb, ◌==◌, if◌then◌else◌,
}
use prosody.Base.Lua.{c_string}

-- `isspace`
abbrev pub is_space : ℕ → Bool
is_space c = (c == 32) || (leb 9 c && leb c 13)

pub skip_spaces : List ℕ → List ℕ
skip_spaces [] = []
skip_spaces (c ∷ rest) = let more = skip_spaces rest in if is_space c then more else c ∷ rest

-- ULONG_MAX is the result where the number is too large.
abbrev pub ulong : ℕ → ℕ
ulong n = if ltb n (2 ^ 64) then n else 2 ^ 64 - 1

-- The octal digits at the front, behind `value`.
pub digits_of : List ℕ → ℕ → ℕ
digits_of [] value = value
digits_of (c ∷ rest) value =
    let more = digits_of rest (value * 8 + (c - 48)) in if leb 48 c && ltb c 56 then more else value

-- The number behind a sign.
pub signed : List ℕ → ℕ
signed [] = 0
signed (c ∷ rest) =
    if c == 45
    then (2 ^ 64 - ulong (digits_of rest 0)) % 2 ^ 64
    else if c == 43
    then ulong (digits_of rest 0)
    else ulong (digits_of (c ∷ rest) 0)

-- `strtoul(s, NULL, 8)`
pub strtoul : List ℕ → ℕ
strtoul s = signed (skip_spaces s)

-- The octal digits of a number of 32 bits: eleven at most.
pub octal : ℕ → ℕ → List ℕ → List ℕ
octal zero n digits = digits
octal (suc fuel) n digits =
    let more = octal fuel (n / 8) ((48 + n % 8) ∷ digits) in if n == 0 then digits else more

abbrev pub pad : List ℕ → List ℕ
pad digits = replicate (3 - length digits) 48 ++ digits

-- The text in `old_mode_string`, which has room for six characters.
pub mode_string : ℕ → List ℕ
mode_string mode = take 6 (pad (octal 11 mode []))

module _ {ℓ} {K : Type ℓ} (umask : K → ℕ → ℕ × K) where
  -- `lc_umask`; `mode_t` is an unsigned integer of 32 bits.
  pub set_umask : K → List ℕ → List ℕ × K
  set_umask k arg =
      let done = umask k (strtoul (c_string arg) % 2 ^ 32) in (mode_string done.0, done.1)
