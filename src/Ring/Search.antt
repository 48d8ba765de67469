-- ===== src/Ring/Search.antt =====
-- util-src/ringbuffer.c: `find`, `rb_find` and `rb_readuntil`.
-- The outer loop of `find` takes fuel, one for each round, and `none` means that the fuel ran out.
-- A string is followed by a NUL, which `*s` reads where the string is empty.
pub mod Occurs
pub mod Laws
pub mod Flaws
use mathlib.Core.Option
use prosody.Base.{
  ℕ, zero, suc, ◌+◌, ◌%◌, Bool, true, false, ◌&&◌, List, [], ◌∷◌, Option, none, some, length,
  get_or, drop, ltb, ◌==◌, if◌then◌else◌,
}
use prosody.Base.Int.{ℤ, pos}
use prosody.Base.Word.{add_size, sub_size, size_of_ℤ, long_of_size, int_of_size}
use prosody.Base.Lua.{Value, integer, Outcome, ret, ◌>>=◌}
use prosody.Ring.{Ring, read}

-- `b->buffer[k % b->alen]`, which is inside the storage of a valid ring.
abbrev pub at : Ring → ℕ → ℕ
at b k = get_or b.buffer (k % b.alen) 0

-- The inner loop, from index `j` of the string on: whether all the bytes that follow match.
pub rest_matches : Ring → ℕ → ℕ → List ℕ → Bool
rest_matches b i j [] = true
rest_matches b i j (c ∷ cs) =
    at b (add_size (add_size b.rpos i) j) == c && rest_matches b i (j + 1) cs

-- The test of one round of the outer loop.
pub matches : Ring → List ℕ → ℕ → Bool
matches b s i = at b (add_size b.rpos i) == get_or s 0 0 && rest_matches b i 1 (drop 1 s)

-- The outer loop, from `i` on.
pub find_loop : ℕ → Ring → List ℕ → ℕ → Option ℕ
find_loop zero b s i = none
find_loop (suc fuel) b s i =
    let rest = find_loop fuel b s (add_size i 1) in
    if ltb (sub_size b.blen (length s)) i
    then some 0
    else if matches b s i
    then some (add_size i (length s))
    else rest

-- The result is an `int`.
pub find : ℕ → Ring → List ℕ → Option ℤ
find fuel b s =
    if b.rpos == b.wpos then some (pos 0) else Option.map int_of_size (find_loop fuel b s 0)

-- No value is pushed where nothing is found.
pub rb_find : ℕ → Ring → List ℕ → Option (List Value)
rb_find fuel b s =
    Option.map
      (λ m. let m' = size_of_ℤ m in if ltb 0 m' then integer (long_of_size m') ∷ [] else [])
      (find fuel b s)

-- `m` found: `rb_read` of that many bytes, the third argument being absent.
pub read_found : Ring → ℕ → Outcome (List Value × Ring)
read_found b m =
    if ltb 0 m then (read b (long_of_size m) false >>= λ r. ret (r.0 ∷ [], r.1)) else ret ([], b)

pub readuntil : ℕ → Ring → List ℕ → Option (Outcome (List Value × Ring))
readuntil fuel b s = Option.map (λ m. read_found b (size_of_ℤ m)) (find fuel b s)
