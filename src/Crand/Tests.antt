-- ===== src/Crand/Tests.antt =====
-- Random bytes from a source that gives at most two at a time, and the theorems at it.
use prosody.Base.{
  length-replicate, ℕ, zero, suc, ◌+◌, ◌≤◌, ◌<◌, ◌≡◌, ◌⊎◌, refl, ap, subst, List, [], ◌∷◌, Option,
  none, some, length, replicate, arith,
}
use prosody.Base.Int.{pos, negsuc}
use prosody.Base.Lua.{ret, raise}
use prosody.Crand.{round, fill_loop, fill_getrandom, push_buf, lrandom}
use prosody.Crand.Filled.{Draws, Stops, IsSource, lrandom-Draws}

-- The state is the next byte.
two_at_most : ℕ → ℕ → Option (List ℕ) × ℕ
two_at_most k zero = (some [], k)
two_at_most k (suc zero) = (some (k ∷ []), k + 1)
two_at_most k (suc (suc n)) = (some (k ∷ (k + 1) ∷ []), k + 2)

abbrev stale : ℕ → List ℕ
stale size = replicate size 255

five :
    lrandom (fill_getrandom two_at_most 5) stale 0 (pos 5) ≡ some (ret (0 ∷ 1 ∷ 2 ∷ 3 ∷ 4 ∷ []), 5)
unfolding lrandom fill_getrandom fill_loop round push_buf two_at_most
five = refl

bytes_of : {a b : List ℕ} → some a ≡ some b → a ≡ b
bytes_of e = ap (λ o. elim o [ none ↦ [] | some s ↦ s ]) e

two_at_most-IsSource : IsSource two_at_most
unfolding two_at_most
two_at_most-IsSource k zero bytes p e = absurd (omega arith)
two_at_most-IsSource k (suc zero) bytes p e =
    subst (λ s. (0 < length s) × (length s ≤ 1)) (bytes_of e) (omega arith, omega arith)
two_at_most-IsSource k (suc (suc n)) bytes p e =
    subst (λ s. (0 < length s) × (length s ≤ suc (suc n))) (bytes_of e) (omega arith, omega arith)

lrandom-Draws_example :
    (((bytes : List ℕ) × (k' : ℕ) × (lrandom (fill_getrandom two_at_most 5) stale 0 (pos 5)
          ≡ some (ret bytes, k'))
        × (length bytes ≡ 5)
        × Draws two_at_most 0 5 bytes k')
      ⊎ ((k' : ℕ) × (lrandom (fill_getrandom two_at_most 5) stale 0 (pos 5) ≡ some (raise, k'))
          × Stops two_at_most 0 5 k'))
    × (lrandom (fill_getrandom two_at_most 5) stale 0 (negsuc 0) ≡ some (raise, 0))
lrandom-Draws_example =
    lrandom-Draws two_at_most stale two_at_most-IsSource (λ size. length-replicate size 255) 5 5 0 0
      (omega arith) (omega arith)
