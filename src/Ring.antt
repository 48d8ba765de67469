-- ===== src/Ring.antt =====
-- util-src/ringbuffer.c: the ring buffer of bytes behind `util.ringbuffer`.
-- A method returns the Lua values that it pushes, and the ring afterwards where it writes to it.
-- Reads and writes of `buffer` out of the storage, which C leaves undefined, are `fault`.
pub mod Inv
pub mod Queue
pub mod Write
pub mod Read
pub mod Splice
pub mod Search
pub mod Run
pub mod Sizes
mod Tests
use prosody.Base.{
  ℕ, zero, suc, ◌+◌, ◌-◌, ◌%◌, ◌^◌, Bool, true, false, List, [], ◌∷◌, ◌++◌, Option, none, some,
  length, get_elem?, get_or, set, take, drop, ltb, leb, ◌==◌, if◌then◌else◌, not, map, ◌&&◌,
}
use prosody.Base.Int.{ℤ, pos, negsuc, pos_part, ◌+ℤ◌, ◌-ℤ◌, ltb_ℤ, leb_ℤ}
use prosody.Base.Word.{add_size, sub_size, size_of_ℤ, long_of_size, int_of_size}
use prosody.Base.Lua.{Value, nil, boolean, integer, string, Outcome, ret, raise, fault, ◌>>=◌}

pub record Ring : Type 0 where
  pub rpos : ℕ
  pub wpos : ℕ
  pub alen : ℕ
  pub blen : ℕ
  pub buffer : List ℕ

-- `lua_pushlstring(L, &b->buffer[p], n)`: the bytes pushed.
pub slice : List ℕ → ℕ → ℕ → Outcome (List ℕ)
slice buf p n = if leb (p + n) (length buf) then ret (take n (drop p buf)) else fault

-- `rb_new`: `storage` is the memory that follows the header in the new userdata, whose bytes are
-- not initialised.
pub new : ℤ → List ℕ → Outcome Ring
new size storage =
    if ltb_ℤ (pos 0) size
    then ret (record { rpos = 0; wpos = 0; alen = size_of_ℤ size; blen = 0; buffer = storage })
    else raise

-- `writechar`, with the store refused outside the storage.
pub writechar : Ring → ℕ → Outcome Ring
writechar b c =
    if ltb (b.wpos % b.alen) (length b.buffer)
    then ret (record b {
      wpos = add_size b.wpos 1;
      blen = add_size b.blen 1;
      buffer = set b.buffer (b.wpos % b.alen) c;
    })
    else fault

pub modpos : Ring → Ring
modpos b = record b { rpos = b.rpos % b.alen; wpos = b.wpos % b.alen }

-- The `while` of `rb_write`.
pub write_loop : Ring → List ℕ → Outcome Ring
write_loop b [] = ret b
write_loop b (c ∷ s) = writechar b c >>= λ b'. write_loop b' s

pub write : Ring → List ℕ → Outcome (Value × Ring)
write b s =
    if ltb b.alen (add_size (length s) b.blen)
    then ret (nil, b)
    else write_loop b s >>= λ b'. ret (integer (long_of_size (length s)), modpos b')

-- `b->blen -= r; b->rpos += r; modpos(b);`
pub advance : Ring → ℕ → Ring
advance b r = modpos (record b { rpos = add_size b.rpos r; blen = sub_size b.blen r })

pub discard : Ring → ℤ → Value × Ring
discard b n =
    let r = size_of_ℤ n in if ltb b.blen r then (boolean false, b) else (boolean true, advance b r)

-- The bytes that `rb_read` pushes, in one string or in two that it joins.
pub read_bytes : Ring → ℕ → Outcome (List ℕ)
read_bytes b r =
    if ltb b.alen (add_size b.rpos r)
    then (slice b.buffer b.rpos (sub_size b.alen b.rpos) >>= λ front.
        slice b.buffer 0 (sub_size r (sub_size b.alen b.rpos)) >>= λ back. ret (front ++ back))
    else slice b.buffer b.rpos r

pub read : Ring → ℤ → Bool → Outcome (Value × Ring)
read b n peek =
    let r = size_of_ℤ n in
    if ltb b.blen r
    then ret (nil, b)
    else read_bytes b r >>= λ s. ret (string s, if peek then b else advance b r)

pub rb_length : Ring → Value
rb_length b = integer (long_of_size b.blen)

pub rb_size : Ring → Value
rb_size b = integer (long_of_size b.alen)

pub rb_free : Ring → Value
rb_free b = integer (long_of_size (sub_size b.alen b.blen))
