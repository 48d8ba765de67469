-- ===== src/Table/Tests.antt =====
-- `util.table` on small inputs, and the theorems at such inputs.
use prosody.Base.{ℕ, ◌≡◌, refl, true, List, [], ◌∷◌, get_or, arith}
use prosody.Base.Int.{ℤ, pos, negsuc}
use prosody.Base.Lua.{ret}
use prosody.Table.{source, Tables, copy, down_loop, move, pack_loop, pack}
use prosody.Table.Keys.{at}
use prosody.Table.Move.{Moved, move-Moved}
use prosody.Table.Pack.{pack_lem}

-- Each key holds itself, and the other table holds 0 everywhere.
abbrev own : Tables ℤ
own = record { src = λ k. k; dst = λ k. pos 0 }

-- Three keys moved up by one within a table: the ranges overlap.
move_up :
    (m : Tables ℤ) × (move source own (pos 1) (pos 3) (pos 2) ≡ ret m)
    × (m.src (pos 4) ≡ pos 3)
    × (m.src (pos 3) ≡ pos 2)
    × (m.src (pos 2) ≡ pos 1)
    × (m.src (pos 1) ≡ pos 1)
unfolding move down_loop copy
move_up = (_, refl, refl, refl, refl, refl)

abbrev two_args : List ℕ
two_args = 5 ∷ 7 ∷ []

pack_two : (pack two_args 0).0 (pos 2) ≡ 7
unfolding pack pack_loop
pack_two = refl

move-Moved_example :
    (m' : Tables ℤ) × (move source own (pos 1) (pos 3) (pos 2) ≡ ret m')
    × Moved true (pos 2) 0 3 (λ j. at (pos 1) j) own m'
move-Moved_example =
    move-Moved source own (pos 1) (pos 3) (pos 2) refl refl refl tt (omega arith)
      (λ h. ground (arith, h)) (λ h. ground (arith, h))

pack_lem_example :
    ((i : ℕ) → (pack two_args 0).0 (pos (ℕ.suc i)) ≡ get_or two_args i 0)
    × ((pack two_args 0).0 (pos 0) ≡ 0)
    × ((i : ℕ) → (pack two_args 0).0 (negsuc i) ≡ 0)
    × ((pack two_args 0).1 ≡ 2)
pack_lem_example = pack_lem two_args 0
