-- ===== src/Ring/Tests.antt =====
-- Runs of the ring buffer on small inputs, and the theorems at such inputs.
use prosody.Base.{
  ℕ, ◌≡◌, ◌≢◌, refl, ◌<◌, true, false, List, [], ◌∷◌, none, some, take, drop, get_or, arith,
}
use prosody.Base.Int.{pos, negsuc}
use prosody.Base.Lua.{nil, integer, string, ret}
use prosody.Ring.{Ring, slice, writechar, modpos, write_loop, write, read_bytes, read}
use prosody.Ring.Queue
use prosody.Ring.Inv.{IsValid, contents}
use prosody.Ring.Splice.{sub}
use prosody.Ring.Splice.Laws.{sub-eq-string_sub}
use prosody.Ring.Search.{find, readuntil}
use prosody.Ring.Search.Laws.{IsSearchable, IsEndOfFirst, readuntil_lem}
use prosody.Ring.Search.Flaws.{find_never_ends}
use prosody.Ring.Run.{Call, put, get, skip, run, queue_run, run_refines}

-- "cab" going round the end of four bytes.
abbrev wrapped : Ring
wrapped = record { rpos = 2; wpos = 1; alen = 4; blen = 3; buffer = b'b' ∷ b'x' ∷ b'c' ∷ b'a' ∷ [] }

abbrev full : Ring
full = record wrapped { wpos = 2; blen = 4 }

abbrev one_held : Ring
one_held = record wrapped { wpos = 3; blen = 1 }

wrapped-IsValid : IsValid wrapped
wrapped-IsValid = omega arith

one_held-IsValid : IsValid one_held
one_held-IsValid = omega arith

contents-wrapped : contents wrapped ≡ b'c' ∷ b'a' ∷ b'b' ∷ []
contents-wrapped = refl

read_round : read wrapped (pos 3) true ≡ ret (string (b'c' ∷ b'a' ∷ b'b' ∷ []), wrapped)
unfolding read read_bytes slice
read_round = refl

write_one :
    write wrapped (b'd' ∷ [])
    ≡ ret (integer (pos 1), record full { buffer = b'b' ∷ b'd' ∷ b'c' ∷ b'a' ∷ [] })
unfolding write write_loop writechar modpos
write_one = refl

write_two : write wrapped (b'd' ∷ b'e' ∷ []) ≡ ret (nil, wrapped)
unfolding write
write_two = refl

sub-eq-string_sub_example :
    sub wrapped (negsuc 1) none ≡ ret (Queue.sub (contents wrapped) (negsuc 1) (negsuc 0))
sub-eq-string_sub_example =
    sub-eq-string_sub (negsuc 1) none wrapped-IsValid (omega arith) (omega arith)

wrapped-IsSearchable : IsSearchable wrapped (b'a' ∷ b'b' ∷ [])
wrapped-IsSearchable = record {
  valid = wrapped-IsValid;
  not_full = omega arith;
  small = omega arith;
  some_byte = omega arith;
  fits = omega arith;
}

readuntil_lem_example :
    (m : ℕ) × IsEndOfFirst (contents wrapped) (b'a' ∷ b'b' ∷ []) m
    × (m ≡ 0 → readuntil 3 wrapped (b'a' ∷ b'b' ∷ []) ≡ some (ret ([], wrapped)))
    × (0 < m
        → (b' : Ring) × (readuntil 3 wrapped (b'a' ∷ b'b' ∷ [])
            ≡ some (ret (string (take m (contents wrapped)) ∷ [], b')))
          × IsValid b'
          × (contents b' ≡ drop m (contents wrapped)))
readuntil_lem_example = readuntil_lem 3 wrapped-IsSearchable (omega arith)

-- No place of the storage holds "z".
no_z : (k : ℕ) → get_or one_held.buffer k 0 ≢ b'z'
no_z k = ground arith

find_never_ends_example : find 1000 one_held (b'z' ∷ b'z' ∷ []) ≡ none
find_never_ends_example =
    find_never_ends (b'z' ∷ b'z' ∷ []) 1000 one_held-IsValid (omega arith) refl (λ k. no_z _)

abbrev script : List Call
script = put (b'd' ∷ []) ∷ get (pos 2) false ∷ skip (pos 1) ∷ []

run_refines_example :
    (b' : Ring) × (run wrapped script ≡ ret ((queue_run 4 (contents wrapped) script).0, b'))
    × IsValid b'
    × (contents b' ≡ (queue_run 4 (contents wrapped) script).1)
run_refines_example = run_refines script wrapped-IsValid (omega arith)
