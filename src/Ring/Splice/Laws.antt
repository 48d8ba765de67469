-- ===== src/Ring/Splice/Laws.antt =====
-- `rb_sub` and `rb_byte` agree with `string.sub` and `string.byte` of the bytes held.
use prosody.Base.{
  ℕ, zero, suc, ◌+◌, ◌-◌, ◌≤◌, ◌<◌, ◌≡◌, refl, List, [], ◌∷◌, length, get_or, take, drop, tabulate,
  arith, ap, ap₂, ◌∙◌, sym, dec_lt, Option, none, some, get_elem?-eq-get_or, tabulate_ext,
}
use prosody.Base.Int.{ℤ, pos, negsuc}
use prosody.Base.Lua.{ret}
use prosody.Ring.{Ring}
use prosody.Ring.Queue
use prosody.Ring.Inv.{IsValid, contents}
use prosody.Ring.Read.{IsLong, slice-tabulate}
use prosody.Ring.Splice.{opt_integer, calc_splice_positions, sub, byte, push_bytes}
use prosody.Ring.Splice.Place.{
  place, picked, place-le-alen, straight, wrapped, straight_length, wrapped_length, length-picked,
}
use prosody.Ring.Splice.Positions.{lo, hi, first_pos-pos, last_pos-le, splice_empty, splice_places}

-- The loop over the storage, inside it.
push_bytes-tabulate :
    (buf : List ℕ) (p n : ℕ)
    → p + n ≤ length buf
    → push_bytes buf p n ≡ ret (tabulate n (λ i. get_or buf (p + i) 0))
unfolding push_bytes
push_bytes-tabulate buf p zero h = refl
push_bytes-tabulate buf p (suc n) h = ground (
  arith,
  get_elem?-eq-get_or buf p 0,
  push_bytes-tabulate buf (p + 1) n (omega arith),
  ap₂ (λ x xs. ret (x ∷ xs)) first (tabulate_ext n _ _ later),
)
  where
    first : get_or buf p 0 ≡ get_or buf (p + 0) 0
    first = let e : p ≡ p + 0 = omega arith in ap (λ k. get_or buf k 0) e

    later : (i : ℕ) → i < n → get_or buf (p + 1 + i) 0 ≡ get_or buf (p + suc i) 0
    later i q = let e : p + 1 + i ≡ p + suc i = omega arith in ap (λ k. get_or buf k 0) e

module _ {b : Ring} (v : IsValid b) (s e : ℕ) (lt : s < e) (fits : e ≤ b.blen) where
  -- The two strings joined, or the one.
  rb_sub-picked :
      (start : ℤ) (end_ : Option ℤ)
      → calc_splice_positions b start (opt_integer end_ (negsuc 0))
        ≡ some (pos (place b s), pos (place b e))
      → sub b start end_ ≡ ret (picked b s e)
  unfolding sub
  rb_sub-picked start end_ c = elim (dec_lt (place b s) (place b e)) [
    | yes p ↦
        rw (c, sub)
          (ground (
            arith,
            v.small,
            v.storage,
            place-le-alen v s e lt fits,
            slice-tabulate b.buffer (place b s) (place b e - place b s),
            straight v s e lt fits p,
          ))
    | no p ↦
        rw (c, sub)
          (ground (
            arith,
            v.small,
            v.storage,
            place-le-alen v s e lt fits,
            slice-tabulate b.buffer (place b s) (b.alen - place b s),
            slice-tabulate b.buffer 0 (place b e),
            wrapped v s e lt fits (omega arith),
          ))
  ]

  byte-picked :
      (start end_ : Option ℤ)
      → calc_splice_positions b
          (opt_integer start (pos 1))
          (opt_integer end_ (opt_integer start (pos 1)))
        ≡ some (pos (place b s), pos (place b e))
      → byte b start end_ ≡ ret (picked b s e, pos (length (picked b s e)))
  unfolding byte
  byte-picked start end_ c = elim (dec_lt (place b s) (place b e)) [
    | yes p ↦
        rw (c, byte, length-picked v s e lt fits)
          (ground (
            arith,
            v.small,
            v.storage,
            place-le-alen v s e lt fits,
            straight_length v s e lt fits p,
            push_bytes-tabulate b.buffer (place b s) (place b e - place b s),
            straight v s e lt fits p,
          ))
    | no p ↦
        rw (c, byte, length-picked v s e lt fits)
          (ground (
            arith,
            v.small,
            v.storage,
            place-le-alen v s e lt fits,
            wrapped_length v s e lt fits (omega arith),
            push_bytes-tabulate b.buffer (place b s) (b.alen - place b s),
            push_bytes-tabulate b.buffer 0 (place b e),
            wrapped v s e lt fits (omega arith),
          ))
  ]

-- The queue's `sub`, by offsets.
sub-empty : (b : Ring) (i j : ℤ) → hi b j < lo b i → Queue.sub (contents b) i j ≡ []
unfolding Queue.sub
sub-empty b i j h =
    let e : hi b j + 1 - lo b i ≡ 0 = omega arith in
    ap (λ k. take k (drop (lo b i - 1) (contents b))) e

sub-picked :
    (b : Ring) (i j : ℤ) → 1 ≤ lo b i → Queue.sub (contents b) i j ≡ picked b (lo b i - 1) (hi b j)
unfolding Queue.sub
sub-picked b i j h =
    let e : hi b j + 1 - lo b i ≡ hi b j - (lo b i - 1) = omega arith in
    ap (λ k. take k (drop (lo b i - 1) (contents b))) e

rb_sub-none :
    (b : Ring) (start : ℤ) (end_ : Option ℤ)
    → calc_splice_positions b start (opt_integer end_ (negsuc 0)) ≡ none
    → sub b start end_ ≡ ret []
unfolding sub
rb_sub-none b start end_ c = rw (c, sub)

byte-none :
    (b : Ring) (start end_ : Option ℤ)
    → calc_splice_positions b
        (opt_integer start (pos 1))
        (opt_integer end_ (opt_integer start (pos 1)))
      ≡ none
    → byte b start end_ ≡ ret ([], pos 0)
unfolding byte
byte-none b start end_ c = rw (c, byte)

-- `rb_sub` pushes what `string.sub` gives of the bytes held, for every pair of positions, and the
-- second one is -1 where it is left out; it reads nothing outside the storage.
pub sub-eq-string_sub :
    {b : Ring} (i : ℤ) (end_ : Option ℤ)
    → IsValid b
    → IsLong i
    → IsLong (opt_integer end_ (negsuc 0))
    → sub b i end_ ≡ ret (Queue.sub (contents b) i (opt_integer end_ (negsuc 0)))
sub-eq-string_sub {b} i end_ v li lj =
    let j = opt_integer end_ (negsuc 0) in
    elim (dec_lt (hi b j) (lo b i)) [
      | yes p ↦ rb_sub-none b i end_ (splice_empty v i j li lj p) ∙ ap ret (sym (sub-empty b i j p))
      | no p ↦
          rb_sub-picked v (lo b i - 1) (hi b j) (omega (arith, first_pos-pos v i)) (last_pos-le v j)
            i end_ (splice_places v i j li lj (omega arith))
          ∙ ap ret (sym (sub-picked b i j (first_pos-pos v i)))
    ]

-- `rb_byte` pushes the bytes that `string.byte` gives of the bytes held, as many as it announces;
-- the first position is 1 and the second the first where they are left out.
pub byte-eq-string_byte :
    {b : Ring} (start end_ : Option ℤ)
    → IsValid b
    → IsLong (opt_integer start (pos 1))
    → IsLong (opt_integer end_ (opt_integer start (pos 1)))
    → let i = opt_integer start (pos 1) in
      let q = Queue.sub (contents b) i (opt_integer end_ i) in
      byte b start end_ ≡ ret (q, pos (length q))
byte-eq-string_byte {b} start end_ v li lj =
    let i = opt_integer start (pos 1) in
    let j = opt_integer end_ i in
    elim (dec_lt (hi b j) (lo b i)) [
      | yes p ↦
          byte-none b start end_ (splice_empty v i j li lj p)
          ∙ ap (λ q. ret (q, pos (length q))) (sym (sub-empty b i j p))
      | no p ↦
          byte-picked v (lo b i - 1) (hi b j) (omega (arith, first_pos-pos v i)) (last_pos-le v j)
            start end_ (splice_places v i j li lj (omega arith))
          ∙ ap (λ q. ret (q, pos (length q))) (sym (sub-picked b i j (first_pos-pos v i)))
    ]
