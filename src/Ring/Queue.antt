-- ===== src/Ring/Queue.antt =====
-- The contract of a ring buffer: a first-in first-out sequence of at most `size` bytes.
use Prim.Native.Nat.{min, max}
use prosody.Base.{
  ℕ, ◌+◌, ◌-◌, Bool, true, false, List, ◌++◌, length, take, drop, ltb, if◌then◌else◌,
}
use prosody.Base.Int.{ℤ, pos, negsuc}
use prosody.Base.Lua.{Value, nil, boolean, integer, string}

abbrev pub Queue : Type 0
Queue = List ℕ

-- All of `s` or nothing.
unfoldable pub write : ℕ → Queue → List ℕ → Value × Queue
write size q s =
    if ltb size (length s + length q) then (nil, q) else (integer (pos (length s)), q ++ s)

unfoldable pub discard : Queue → ℤ → Value × Queue
discard q (pos n) = if ltb (length q) n then (boolean false, q) else (boolean true, drop n q)
discard q (negsuc n) = (boolean false, q)

unfoldable pub read : Queue → ℤ → Bool → Value × Queue
read q (pos n) peek =
    if ltb (length q) n then (nil, q) else (string (take n q), if peek then q else drop n q)
read q (negsuc n) peek = (nil, q)

-- The manual's reading of the positions of `string.sub` and `string.byte`, which count from 1, and
-- from the end where they are negative: the first one taken, and the last.
abbrev pub first_pos : Queue → ℤ → ℕ
first_pos q (pos n) = max 1 n
first_pos q (negsuc m) = max 1 (length q - m)

abbrev pub last_pos : Queue → ℤ → ℕ
last_pos q (pos n) = min (length q) n
last_pos q (negsuc m) = length q - m

unfoldable pub sub : Queue → ℤ → ℤ → Queue
sub q i j = take (last_pos q j + 1 - first_pos q i) (drop (first_pos q i - 1) q)
