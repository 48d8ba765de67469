-- ===== src/Crand.antt =====
-- util-src/crand.c: `util.crand`. `lrandom` is Lrandom, over one of the three sources that the build
-- chooses from, each with its own way to fill the buffer. The sources, and what new memory holds, are
-- parameters.
pub mod Filled
pub mod Flaws
mod Tests
use prosody.Base.{
  ℕ, zero, suc, ◌+◌, ◌-◌, ◌^◌, Bool, true, false, not, List, [], ◌∷◌, ◌++◌, Option, none, some,
  length, take, drop, ltb, ◌==◌, ◌||◌, if◌then◌else◌,
}
use prosody.Base.Int.{ℤ, pos, negsuc, pos_part, ◌-ℤ◌, ltb_ℤ}
use prosody.Base.Word.{size_of_ℤ, int_of_size}
use prosody.Base.Lua.{Outcome, ret, raise, fault}

-- What a function of the file ends with: `none` on fuel that ends first.
abbrev pub Run {ℓ} : Type ℓ → Type ℓ
Run K = Option (Outcome (List ℕ) × K)

-- SMALLBUFSIZ
abbrev pub small_buf_size : ℕ
small_buf_size = 32

-- `bytes` stored in the buffer from index `p` on, inside of it.
abbrev pub overlay : List ℕ → ℕ → List ℕ → List ℕ
overlay buf p bytes = take p buf ++ bytes ++ drop (p + length bytes) buf

-- How a round of the loop ends: with a result, or with the buffer, the offset of the pointer `p` and
-- `left` of the next round.
pub data Round : Type 0 where
  ended : Outcome (List ℕ) → Round
  again : List ℕ → ℕ → ℤ → Round

-- A round on what getrandom(2) gave: the bytes that it stored, or `none` for an error. Its result and
-- `left` are of type `int`.
pub round : Option (List ℕ) → List ℕ → ℕ → ℤ → Round
round none buf p left = ended raise
round (some bytes) buf p left =
    let n = int_of_size (length bytes) in
    let left' = left -ℤ n in
    if ltb_ℤ n (pos 0)
    then ended raise
    else if ltb (length buf) (p + length bytes) || ltb_ℤ left' (negsuc (2 ^ 31 - 1))
    then ended fault
    else if ltb_ℤ (pos 0) left'
    then again (overlay buf p bytes) (p + pos_part n) left'
    else ended (ret (overlay buf p bytes))

module _ {ℓ} {K : Type ℓ} where
  abbrev pub carry_on : Round → K → (K → List ℕ → ℕ → ℤ → Run K) → Run K
  carry_on (ended o) k rounds = some (o, k)
  carry_on (again buf p left) k rounds = rounds k buf p left

  -- The loop over getrandom(2).
  pub fill_loop : (K → ℕ → Option (List ℕ) × K) → ℕ → K → List ℕ → ℕ → ℤ → Run K
  fill_loop getrandom zero k buf p left = none
  fill_loop getrandom (suc fuel) k buf p left =
      let got = getrandom k (size_of_ℤ left) in
      carry_on (round got.0 buf p left) got.1 (fill_loop getrandom fuel)

  -- WITH_GETRANDOM
  pub fill_getrandom : (K → ℕ → Option (List ℕ) × K) → ℕ → K → List ℕ → ℕ → Run K
  fill_getrandom getrandom fuel k buf len = fill_loop getrandom fuel k buf 0 (int_of_size len)

  -- WITH_ARC4RANDOM
  pub fill_arc4random : (K → ℕ → List ℕ × K) → K → List ℕ → ℕ → Run K
  fill_arc4random arc4random_buf k buf len =
      let got = arc4random_buf k len in some (ret (overlay buf 0 got.0), got.1)

  -- WITH_OPENSSL; RAND_bytes takes its length as an `int`, and gives 1 with the bytes where it fills
  -- the buffer.
  pub fill_openssl : (K → Bool × K) → (K → ℤ → Option (List ℕ) × K) → K → List ℕ → ℕ → Run K
  fill_openssl rand_status rand_bytes k buf len =
      let status = rand_status k in
      if not status.0
      then some (raise, status.1)
      else let got = rand_bytes status.1 (int_of_size len) in
        elim got.0 [
          | none ↦ some (raise, got.1)
          | some bytes ↦ some (ret (overlay buf 0 bytes), got.1)
        ]

  -- `lua_pushlstring(L, buf, len)`
  pub push_buf : ℕ → Run K → Run K
  push_buf len none = none
  push_buf len (some (ret buf, k)) = some (ret (take len buf), k)
  push_buf len (some (raise, k)) = some (raise, k)
  push_buf len (some (fault, k)) = some (fault, k)

  -- `Lrandom`, over one of the sources; `memory` is what new memory of a size holds.
  pub lrandom : (K → List ℕ → ℕ → Run K) → (ℕ → List ℕ) → K → ℤ → Run K
  lrandom fill memory k l =
      let len = size_of_ℤ l in
      if ltb_ℤ l (pos 0)
      then some (raise, k)
      else if len == 0
      then some (ret [], k)
      else push_buf len
          (fill k (if ltb small_buf_size len then memory len else memory small_buf_size) len)
