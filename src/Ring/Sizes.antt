-- ===== src/Ring/Sizes.antt =====
-- What `rb_length`, `rb_size` and `rb_free` tell a client of the next write.
use prosody.Base.{ℕ, ◌-◌, ◌^◌, ◌≤◌, ◌<◌, ◌≡◌, List, length, arith}
use prosody.Base.Int.{pos}
use prosody.Base.Lua.{nil, integer, ret}
use prosody.Ring.{Ring, write, rb_length, rb_size, rb_free}
use prosody.Ring.Queue
use prosody.Ring.Inv.{IsValid, contents, length-contents}
use prosody.Ring.Write.{write-Refines}

-- The three sizes are those of the bytes held and of the storage, and the free bytes are what is
-- left of it.
sizes_lem :
    {b : Ring}
    → IsValid b
    → (rb_length b ≡ integer (pos (length (contents b))))
      × (rb_size b ≡ integer (pos b.alen))
      × (rb_free b ≡ integer (pos (b.alen - length (contents b))))
unfolding rb_length rb_size rb_free
sizes_lem {b} v = ground (arith, v.small, v.blen_in, length-contents b)

-- A string is written exactly where it is no longer than the number that `rb_free` gives: `rb_write`
-- then returns its length, and otherwise nil.
pub write-rb_free :
    {b : Ring} (s : List ℕ)
    → IsValid b
    → length s < 2 ^ 63
    → (n : ℕ) × (rb_free b ≡ integer (pos n))
      × (b' : Ring) × (length s ≤ n → write b s ≡ ret (integer (pos (length s)), b'))
      × (n < length s → write b s ≡ ret (nil, b'))
unfolding Queue.write
write-rb_free {b} s v h =
    let r = write-Refines s v h in
    (
      b.alen - length (contents b),
      (sizes_lem v).2,
      r.after,
      λ p. ground (arith, r.returns, length-contents b, v.blen_in),
      λ p. ground (arith, r.returns, length-contents b, v.blen_in),
    )
