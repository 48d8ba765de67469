-- ===== src/Ring/Search/Flaws.antt =====
-- Where `find` does not look over the bytes held: a full ring, whose two positions are equal like
-- those of an empty one, and a string longer than the bytes held, for which `b->blen - l` wraps.
use prosody.Base.{
  ℕ, zero, suc, ◌+◌, ◌<◌, ◌≡◌, refl, ◌≢◌, false, List, none, some, length, get_or, arith,
}
use prosody.Base.Int.{pos}
use prosody.Base.Word.{add_size, size_mod}
use prosody.Ring.{Ring}
use prosody.Ring.Inv.{IsValid, wrap_index}
use prosody.Ring.Search.{at, matches, find_loop, find}

full_positions : {b : Ring} → IsValid b → b.blen ≡ b.alen → b.rpos ≡ b.wpos
full_positions {b} v e = ground (arith, v, wrap_index b.rpos b.blen b.alen)

-- `find` reports nothing on a full ring, whatever the ring holds and whatever is looked for: the
-- test that is meant for an empty ring holds of a full one.
pub find_full :
    {b : Ring} (fuel : ℕ) (s : List ℕ) → IsValid b → b.blen ≡ b.alen → find fuel b s ≡ some (pos 0)
unfolding find
find_full fuel s v e = ground (arith, full_positions v e)

-- No byte of the storage is the first of the string.
abbrev pub NoFirstByte : Ring → List ℕ → Type 0
NoFirstByte b s = (k : ℕ) → at b k ≢ get_or s 0 0

never_matches : (b : Ring) (s : List ℕ) (i : ℕ) → NoFirstByte b s → matches b s i ≡ false
unfolding matches
never_matches b s i h = ground (arith, h (add_size b.rpos i))

loop_goes_on :
    (b : Ring) (s : List ℕ)
    → length s ≡ b.blen + 1
    → b.blen < size_mod
    → NoFirstByte b s
    → (fuel i : ℕ) → i < size_mod
    → find_loop fuel b s i ≡ none
unfolding find_loop
loop_goes_on b s l h absent zero i p = refl
loop_goes_on b s l h absent (suc fuel) i p = ground (
  arith,
  never_matches b s i absent,
  loop_goes_on b s l h absent fuel (add_size i 1) (omega arith),
)

-- With a string one byte longer than what is held, and no place in the storage that has its first
-- byte, `find` does not end: no fuel is enough.
pub find_never_ends :
    {b : Ring} (s : List ℕ) (fuel : ℕ)
    → IsValid b
    → b.rpos ≢ b.wpos
    → length s ≡ b.blen + 1
    → NoFirstByte b s
    → find fuel b s ≡ none
unfolding find
find_never_ends {b} s fuel v apart l absent =
    ground
      (arith, loop_goes_on b s l (omega (arith, v.blen_in, v.small)) absent fuel 0 (omega arith))
