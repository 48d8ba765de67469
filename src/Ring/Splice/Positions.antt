-- ===== src/Ring/Splice/Positions.antt =====
-- What the two positions of `calc_splice_positions` come to.
use prosody.Base.{ℕ, ◌-◌, ◌≤◌, ◌<◌, ◌≡◌, refl, arith, dec_lt, none, some}
use prosody.Base.Int.{ℤ, pos, negsuc, ◌≤ℤ◌, ◌<ℤ◌}
use prosody.Ring.{Ring}
use prosody.Ring.Queue
use prosody.Ring.Inv.{IsValid, contents, length-contents}
use prosody.Ring.Read.{IsLong}
use prosody.Ring.Splice.{wrap_pos, from_end, clamp_start, clamp_end, calc_splice_positions}
use prosody.Ring.Splice.Place.{place}

-- The first position, and the last.
abbrev pub lo : Ring → ℤ → ℕ
lo b i = Queue.first_pos (contents b) i

abbrev pub hi : Ring → ℤ → ℕ
hi b j = Queue.last_pos (contents b) j

module _ {b : Ring} (v : IsValid b) where
  wrap_pos-place : (i : ℕ) → i ≤ b.blen → wrap_pos b (pos i) ≡ some (pos (place b i))
  unfolding wrap_pos
  wrap_pos-place i h = ground (arith, v)

  start_lem : (i : ℤ) → IsLong i → clamp_start (from_end b i) ≡ pos (lo b i)
  unfolding clamp_start from_end
  start_lem (pos n) l = ground arith
  start_lem (negsuc m) l = ground (arith, v, length-contents b)

  end_inside : (j : ℤ) → IsLong j → 0 < hi b j → clamp_end b (from_end b j) ≡ pos (hi b j)
  unfolding clamp_end from_end
  end_inside (pos n) l h = elim (dec_lt b.blen n) [
    | yes p ↦ rw (length-contents b) (ground (arith, v.small, v.blen_in))
    | no p ↦ rw (length-contents b) (ground (arith, v.small, v.blen_in))
  ]
  end_inside (negsuc m) l h = ground (arith, v.small, v.blen_in, length-contents b)

  end_before : (j : ℤ) → IsLong j → hi b j ≡ 0 → clamp_end b (from_end b j) ≤ℤ pos 0
  unfolding clamp_end from_end
  end_before (pos n) l h = ground (arith, v.small, v.blen_in, length-contents b)
  end_before (negsuc m) l h = ground (arith, v.small, v.blen_in, length-contents b)

  pub first_pos-pos : (i : ℤ) → 1 ≤ lo b i
  first_pos-pos (pos n) = omega arith
  first_pos-pos (negsuc m) = omega arith

  pub last_pos-le : (j : ℤ) → hi b j ≤ b.blen
  last_pos-le (pos n) = omega (arith, length-contents b)
  last_pos-le (negsuc m) = omega (arith, length-contents b)

  -- `calc_splice_positions` by what its two positions come to.
  calc_none :
      (i j : ℤ) (s : ℕ) (e : ℤ)
      → clamp_start (from_end b i) ≡ pos s
      → clamp_end b (from_end b j) ≡ e
      → 1 ≤ s
      → e <ℤ pos s
      → calc_splice_positions b i j ≡ none
  unfolding calc_splice_positions
  calc_none i j s e p q h k = rw (p, q) (ground arith)

  calc_some :
      (i j : ℤ) (s e : ℕ)
      → clamp_start (from_end b i) ≡ pos s
      → clamp_end b (from_end b j) ≡ pos e
      → 1 ≤ s
      → s ≤ e
      → e ≤ b.blen
      → calc_splice_positions b i j ≡ some (pos (place b (s - 1)), pos (place b e))
  unfolding calc_splice_positions
  calc_some i j s e p q h k l =
      rw (p, q)
        (ground (arith, wrap_pos-place (s - 1) (omega arith), wrap_pos-place e (omega arith)))

  module _ (i j : ℤ) (li : IsLong i) (lj : IsLong j) where
    pub splice_empty : hi b j < lo b i → calc_splice_positions b i j ≡ none
    splice_empty h = elim (dec_lt 0 (hi b j)) [
      | yes p ↦
          calc_none i j (lo b i) (pos (hi b j)) (start_lem i li) (end_inside j lj p)
            (first_pos-pos i) (omega arith)
      | no p ↦
          calc_none i j (lo b i) (clamp_end b (from_end b j)) (start_lem i li) refl
            (first_pos-pos i) (omega (arith, end_before j lj (omega arith), first_pos-pos i))
    ]

    pub splice_places :
        lo b i ≤ hi b j
        → calc_splice_positions b i j ≡ some (pos (place b (lo b i - 1)), pos (place b (hi b j)))
    splice_places h =
        calc_some i j (lo b i) (hi b j) (start_lem i li)
          (end_inside j lj (omega (arith, first_pos-pos i))) (first_pos-pos i) h (last_pos-le j)
