-- ===== src/Crand/Flaws.antt =====
-- Lengths that do not fit an `int`.
use prosody.Base.{
  take_all, ℕ, suc, ◌%◌, ◌^◌, ◌<◌, ◌≡◌, ◌∙◌, refl, true, false, List, [], Option, some, length, ltb,
  arith,
}
use prosody.Base.Int.{pos}
use prosody.Base.Word.{int_of_size}
use prosody.Base.Lua.{ret}
use prosody.Crand.{ended, round, fill_loop, fill_getrandom, push_buf, lrandom, small_buf_size}
use prosody.Crand.Filled.{lrandom-pos}

-- Nothing is stored where nothing is asked for.
round-nothing : (buf : List ℕ) → round (some []) buf 0 (pos 0) ≡ ended (ret buf)
unfolding round
round-nothing buf = let inside : ltb (length buf) 0 ≡ false = ground arith in rw inside refl

-- A length that is a multiple of 2 ^ 32 is taken for 0: getrandom(2), asked for no byte, gives none,
-- and the string that is returned is what the new memory held.
pub lrandom-memory {ℓ} :
    {K : Type ℓ} (getrandom : K → ℕ → Option (List ℕ) × K) (memory : ℕ → List ℕ) (k k1 : K)
    → getrandom k 0 ≡ (some [], k1)
    → ((size : ℕ) → length (memory size) ≡ size)
    → (fuel n : ℕ) → 0 < n
    → n < 2 ^ 63
    → n % 2 ^ 32 ≡ 0
    → lrandom (fill_getrandom getrandom (suc fuel)) memory k (pos n) ≡ some (ret (memory n), k1)
unfolding fill_getrandom fill_loop push_buf
lrandom-memory getrandom memory k k1 e sized fuel n p small multiple =
    let fill = fill_getrandom getrandom (suc fuel) in
    let large : ltb small_buf_size n ≡ true = ground arith in
    let as_int : int_of_size n ≡ pos 0 = rw multiple refl in
    lrandom-pos fill memory k n p (omega arith)
    ∙ rw (large, as_int, e, round-nothing (memory n), take_all (memory n) n (sized n)) refl
