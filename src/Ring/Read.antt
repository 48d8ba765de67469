-- ===== src/Ring/Read.antt =====
-- `rb_read` and `rb_discard` refine the queue's `read` and `discard`.
use native.Mathlib.Nat.{mod-eq_of_lt}
use prosody.Base.{
  ℕ, ◌+◌, ◌-◌, ◌%◌, ◌^◌, ◌≤◌, ◌<◌, ◌≡◌, refl, List, ◌++◌, length, get_or, take, tabulate, arith, ap,
  ◌∙◌, sym, ap₂, tabulate-append, tabulate_ext, tabulate_cong, take-tabulate, take-drop-tabulate,
  dec_lt, Bool, true, false,
}
use prosody.Base.Int.{ℤ, pos, negsuc, pos_part, neg_part}
use prosody.Base.Word.{size_of_ℤ}
use prosody.Base.Lua.{nil, string, boolean, ret}
use prosody.Ring.{Ring, slice, read_bytes, read, discard}
use prosody.Ring.Queue
use prosody.Ring.Inv.{
  IsValid, Refines, byte_at, contents, length-contents, wrap_index, Refines-same, Refines-advance,
}

-- A slice inside the storage, byte by byte.
pub slice-tabulate :
    (buf : List ℕ) (p n : ℕ)
    → p + n ≤ length buf
    → slice buf p n ≡ ret (tabulate n (λ i. get_or buf (p + i) 0))
unfolding slice
slice-tabulate buf p n h = ground (arith, take-drop-tabulate buf p n 0 h)

module _ {b : Ring} (v : IsValid b) (r : ℕ) (fits : r ≤ b.blen) where
  read_straight : b.rpos + r ≤ b.alen → read_bytes b r ≡ ret (tabulate r (byte_at b))
  unfolding read_bytes
  read_straight h = ground (arith, v.small, slice-tabulate b.buffer b.rpos r (rw v.storage h), same)
    where
      same : tabulate r (λ i. get_or b.buffer (b.rpos + i) 0) ≡ tabulate r (byte_at b)
      same =
          tabulate_ext r _ _
            (λ i p. ap (λ k. get_or b.buffer k 0) (sym (mod-eq_of_lt (omega arith))))

  -- The bytes before and after the end of the storage.
  joined :
      b.alen < b.rpos + r
      → tabulate (b.alen - b.rpos) (λ i. get_or b.buffer (b.rpos + i) 0)
          ++ tabulate (r - (b.alen - b.rpos)) (λ i. get_or b.buffer (0 + i) 0)
        ≡ tabulate r (byte_at b)
  joined over =
      ap₂ ◌++◌ front back
      ∙ sym (tabulate-append first (r - first) (byte_at b))
      ∙ tabulate_cong (first + (r - first)) r _ _ (omega arith) (λ i h. refl)
    where
      first : ℕ
      first = b.alen - b.rpos

      front : tabulate first (λ i. get_or b.buffer (b.rpos + i) 0) ≡ tabulate first (byte_at b)
      front =
          tabulate_ext first _ _
            (λ i p. ap (λ k. get_or b.buffer k 0) (sym (mod-eq_of_lt (omega arith))))

      place : (i : ℕ) → i < r - first → 0 + i ≡ (b.rpos + (first + i)) % b.alen
      place i p = ground (arith, wrap_index b.rpos (first + i) b.alen)

      back :
          tabulate (r - first) (λ i. get_or b.buffer (0 + i) 0)
          ≡ tabulate (r - first) (λ i. byte_at b (first + i))
      back = tabulate_ext _ _ _ (λ i p. ap (λ k. get_or b.buffer k 0) (place i p))

  read_wrapped : b.alen < b.rpos + r → read_bytes b r ≡ ret (tabulate r (byte_at b))
  unfolding read_bytes
  read_wrapped over = ground (
    arith,
    v.small,
    slice-tabulate b.buffer b.rpos (b.alen - b.rpos),
    slice-tabulate b.buffer 0 (r - (b.alen - b.rpos)),
    joined over,
  )

  -- What is pushed is the oldest `r` bytes, whether or not they go round the end.
  pub read_bytes-take : read_bytes b r ≡ ret (take r (contents b))
  read_bytes-take =
      elim (dec_lt b.alen (b.rpos + r)) [
        | yes over ↦ read_wrapped over
        | no inside ↦ read_straight (omega arith)
      ]
      ∙ ap ret (sym (take-tabulate r b.blen (byte_at b) fits))

module _ {b : Ring} (v : IsValid b) where
  read_too_much :
      (n : ℤ) (peek : Bool)
      → b.blen < size_of_ℤ n
      → Refines b (Queue.read (contents b) n peek) (read b n peek)
  unfolding read Queue.read
  read_too_much (pos n) peek over =
      Refines-same v nil (ground (arith, length-contents b)) (ground arith)
  read_too_much (negsuc n) peek over = Refines-same v nil refl (ground arith)

  read_held :
      (n : ℕ) (peek : Bool)
      → n ≤ b.blen
      → Refines b (Queue.read (contents b) (pos n) peek) (read b (pos n) peek)
  unfolding read Queue.read
  read_held n true fits =
      Refines-same v (string (take n (contents b))) (ground (arith, length-contents b))
        (ground (arith, v.small, read_bytes-take v n fits))
  read_held n false fits =
      Refines-advance v (string (take n (contents b))) n fits (ground (arith, length-contents b))
        (ground (arith, v.small, read_bytes-take v n fits))

-- A `lua_Integer`.
abbrev pub IsLong : ℤ → Type 0
IsLong n = (pos_part n < 2 ^ 63) × (neg_part n ≤ 2 ^ 63)

-- `rb_read` of a count that is not negative returns that many of the oldest bytes and, unless it
-- peeks, forgets them; of any other count, or of more than is held, it returns nil and changes
-- nothing. It reads nothing outside the storage.
pub read-Refines :
    {b : Ring} (n : ℤ) (peek : Bool)
    → IsValid b
    → IsLong n
    → Refines b (Queue.read (contents b) n peek) (read b n peek)
read-Refines {b} (pos n) peek v long = elim (dec_lt b.blen n) [
  | yes over ↦ read_too_much v (pos n) peek (omega arith)
  | no fits ↦ read_held v n peek (omega arith)
]
read-Refines (negsuc n) peek v long = read_too_much v (negsuc n) peek (omega arith)

-- `rb_discard` forgets that many of the oldest bytes and returns true, or returns false and changes
-- nothing where the count is negative or more than is held.
pub discard-Refines :
    {b : Ring} (n : ℤ)
    → IsValid b
    → IsLong n
    → Refines b (Queue.discard (contents b) n) (ret (discard b n))
unfolding discard Queue.discard
discard-Refines {b} (pos n) v long = elim (dec_lt b.blen n) [
  | yes over ↦ Refines-same v (boolean false) (ground (arith, length-contents b)) (ground arith)
  | no fits ↦
      Refines-advance v (boolean true) n (omega arith) (ground (arith, length-contents b))
        (ground (arith, v.small))
]
discard-Refines {b} (negsuc n) v long =
    Refines-same v (boolean false) refl (ground (arith, v.small))
