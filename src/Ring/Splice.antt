-- ===== src/Ring/Splice.antt =====
-- util-src/ringbuffer.c: `rb_sub` and `rb_byte`, and the positions that they compute.
-- The arithmetic on `long` is that of the integers, except where an operand is a `size_t`: there
-- it is done modulo 2 ^ 64 and converted back.
pub mod Place
pub mod Positions
pub mod Laws
use prosody.Base.{
  ℕ, zero, suc, ◌+◌, List, [], ◌∷◌, ◌++◌, Option, none, some, length, get_elem?, if◌then◌else◌,
}
use prosody.Base.Int.{ℤ, pos, negsuc, pos_part, ◌+ℤ◌, ◌-ℤ◌, ltb_ℤ, leb_ℤ}
use prosody.Base.Word.{add_size, sub_size, size_of_ℤ, long_of_size}
use prosody.Base.Lua.{Outcome, ret, fault, ◌>>=◌}
use prosody.Ring.{Ring, slice}

-- `luaL_optinteger`
abbrev pub opt_integer : Option ℤ → ℤ → ℤ
opt_integer none d = d
opt_integer (some n) d = n

-- `none` is a return of 0.
pub wrap_pos : Ring → ℤ → Option ℤ
wrap_pos b idx =
    if ltb_ℤ (long_of_size b.blen) idx
    then none
    else if ltb_ℤ (long_of_size b.alen) (idx +ℤ long_of_size b.rpos)
    then some (long_of_size (sub_size (size_of_ℤ idx) (sub_size b.alen b.rpos)))
    else some (long_of_size (add_size b.rpos (size_of_ℤ idx)))

-- `1 + x + b->blen` for a negative `x`
from_end : Ring → ℤ → ℤ
from_end b x =
    if ltb_ℤ x (pos 0) then long_of_size (add_size (size_of_ℤ (pos 1 +ℤ x)) b.blen) else x

clamp_start : ℤ → ℤ
clamp_start x = if leb_ℤ x (pos 0) then pos 1 else x

clamp_end : Ring → ℤ → ℤ
clamp_end b x = if ltb_ℤ (long_of_size b.blen) x then long_of_size b.blen else x

-- The second test of `start` below 1 repeats the first.
pub calc_splice_positions : Ring → ℤ → ℤ → Option (ℤ × ℤ)
calc_splice_positions b start end_ =
    let first = clamp_start (from_end b start) in
    let start' = if ltb_ℤ first (pos 1) then pos 1 else first in
    let end' = clamp_end b (from_end b end_) in
    if ltb_ℤ end' start' then none else elim (wrap_pos b (start' -ℤ pos 1)) [
      | none ↦ none
      | some out_start ↦ elim (wrap_pos b end') [
        | none ↦ none
        | some out_end ↦ some (out_start, out_end)
      ]
    ]

-- The string that `rb_sub` pushes.
pub sub : Ring → ℤ → Option ℤ → Outcome (List ℕ)
sub b start end_ = elim (calc_splice_positions b start (opt_integer end_ (negsuc 0))) [
  | none ↦ ret []
  | some (ws, we) ↦
      if leb_ℤ we ws
      then (slice b.buffer (size_of_ℤ ws) (sub_size b.alen (size_of_ℤ ws)) >>= λ front.
          slice b.buffer 0 (size_of_ℤ we) >>= λ back. ret (front ++ back))
      else slice b.buffer (size_of_ℤ ws) (size_of_ℤ (we -ℤ ws))
]

-- `for(i = p; i < p + n; i++) lua_pushinteger(L, (unsigned char)b->buffer[i]);`
pub push_bytes : List ℕ → ℕ → ℕ → Outcome (List ℕ)
push_bytes buf p zero = ret []
push_bytes buf p (suc n) = elim (get_elem? buf p) [
  | none ↦ fault
  | some c ↦ push_bytes buf (p + 1) n >>= λ cs. ret (c ∷ cs)
]

-- The integers that `rb_byte` pushes, and the number of results that it announces to Lua.
pub byte : Ring → Option ℤ → Option ℤ → Outcome (List ℕ × ℤ)
byte b start end_ =
    let first = opt_integer start (pos 1) in
    elim (calc_splice_positions b first (opt_integer end_ first)) [
      | none ↦ ret ([], pos 0)
      | some (ws, we) ↦
          if leb_ℤ we ws
          then (push_bytes b.buffer (size_of_ℤ ws) (pos_part (long_of_size b.alen -ℤ ws))
              >>= λ front. push_bytes b.buffer 0 (pos_part we) >>= λ back.
                  ret (front ++ back, we +ℤ long_of_size (sub_size b.alen (size_of_ℤ ws))))
          else (push_bytes b.buffer (size_of_ℤ ws) (pos_part (we -ℤ ws)) >>= λ cs.
              ret (cs, we -ℤ ws))
    ]
