-- ===== src/Ring/Search/Laws.antt =====
-- `find` gives the end of the first occurrence.
use prosody.Base.{
  ℕ, zero, suc, ◌+◌, ◌^◌, ◌≤◌, ◌<◌, ◌≡◌, refl, ◌≢◌, ◌⊎◌, inl, inr, true, false, List, [], ◌∷◌, some,
  length, take, drop, Bool-cases, dec_lt, arith, ap, ◌∙◌, subst,
}
use prosody.Base.Int.{pos}
use prosody.Base.Lua.{string, ret}
use prosody.Ring.{Ring}
use prosody.Ring.Inv.{wrap_index, IsValid, contents, length-contents}
use prosody.Ring.Queue
use prosody.Ring.Read.{read-Refines}
use prosody.Ring.Search.{matches, find_loop, find, read_found, readuntil}
use prosody.Ring.Search.Occurs.{Occurs, matches_iff}

-- `m` is where the first occurrence of `s` in `q` ends, or 0 where there is none.
abbrev pub IsEndOfFirst : List ℕ → List ℕ → ℕ → Type 0
IsEndOfFirst q s m =
    ((m ≡ 0) × ((k : ℕ) → k + length s ≤ length q → ¬ Occurs q s k))
    ⊎ ((i : ℕ) × (m ≡ i + length s)
        × (m ≤ length q)
        × Occurs q s i
        × ((k : ℕ) → k < i → ¬ Occurs q s k))

end-le : (q s : List ℕ) (m : ℕ) → IsEndOfFirst q s m → m ≤ length q
end-le q s m (inl e) = omega (arith, e.0)
end-le q s m (inr e) = e.2

module _ {b : Ring} (v : IsValid b) (s : List ℕ) (some_byte : 0 < length s)
    (fits : length s ≤ b.blen) where
  loop_over :
      (fuel i : ℕ) → i ≤ b.alen → b.blen < i + length s → find_loop (suc fuel) b s i ≡ some 0
  unfolding find_loop
  loop_over fuel i h p = ground (arith, v.small, v.blen_in)

  loop_hit :
      (fuel i : ℕ)
      → i + length s ≤ b.blen
      → matches b s i ≡ true
      → find_loop (suc fuel) b s i ≡ some (i + length s)
  unfolding find_loop
  loop_hit fuel i h t = ground (arith, v.small, v.blen_in)

  loop_miss :
      (fuel i : ℕ)
      → i + length s ≤ b.blen
      → matches b s i ≡ false
      → find_loop (suc fuel) b s i ≡ find_loop fuel b s (i + 1)
  unfolding find_loop
  loop_miss fuel i h t = ground (arith, v.small, v.blen_in)

  none_before-suc :
      (i : ℕ)
      → i + length s ≤ b.blen
      → matches b s i ≡ false
      → ((k : ℕ) → k < i → ¬ Occurs (contents b) s k)
      → (k : ℕ) → k < i + 1
      → ¬ Occurs (contents b) s k
  none_before-suc i h miss none_before k p o = elim (dec_lt k i) [
    | yes q ↦ none_before k q o
    | no q ↦
        let e : k ≡ i = omega arith in
        let hit : matches b s i ≡ true =
          (matches_iff v s i some_byte h).1 (subst (Occurs (contents b) s) e o) in
        cc
  ]

  find_loop-IsEndOfFirst :
      (fuel i : ℕ)
      → i + length s ≤ b.blen + 1
      → b.blen + 2 ≤ fuel + i + length s
      → ((k : ℕ) → k < i → ¬ Occurs (contents b) s k)
      → (m : ℕ) × (find_loop fuel b s i ≡ some m) × IsEndOfFirst (contents b) s m
  find_loop-IsEndOfFirst zero i h enough none_before = absurd (omega arith)
  find_loop-IsEndOfFirst (suc fuel) i h enough none_before = elim (dec_lt b.blen (i + length s)) [
    | yes over ↦ (
      0,
      loop_over fuel i (omega (arith, v)) over,
      inl (refl, λ k p. none_before k (omega (arith, length-contents b))),
    )
    | no inside ↦ elim (Bool-cases (matches b s i)) [
      | inl hit ↦ (
        i + length s,
        loop_hit fuel i (omega arith) hit,
        inr (
          i,
          refl,
          omega (arith, length-contents b),
          (matches_iff v s i some_byte (omega arith)).0 hit,
          none_before,
        ),
      )
      | inr miss ↦
          let later =
            find_loop-IsEndOfFirst fuel (i + 1) (omega arith) (omega arith)
              (none_before-suc i (omega arith) miss none_before) in
          (later.0, loop_miss fuel i (omega arith) miss ∙ later.1, later.2)
    ]
  ]

  find_from_start :
      (fuel : ℕ)
      → b.blen + 2 ≤ fuel + length s
      → (m : ℕ) × (find_loop fuel b s 0 ≡ some m) × IsEndOfFirst (contents b) s m
  find_from_start fuel enough =
      find_loop-IsEndOfFirst fuel 0 (omega arith) (omega arith) (λ k p. absurd (omega arith))

find_of_loop :
    (fuel : ℕ) (b : Ring) (s : List ℕ) (m : ℕ)
    → b.rpos ≢ b.wpos
    → m < 2 ^ 31
    → find_loop fuel b s 0 ≡ some m
    → find fuel b s ≡ some (pos m)
unfolding find
find_of_loop fuel b s m apart small e = ground arith

-- Neither empty nor full: the two positions differ.
positions_apart : {b : Ring} → IsValid b → 0 < b.blen → b.blen < b.alen → b.rpos ≢ b.wpos
positions_apart {b} v h k = ground (arith, v, wrap_index b.rpos b.blen b.alen)

-- The ring and the string for which `find` looks over the bytes held and nothing else: some bytes
-- but not a full ring, below the range of `int`, and a string that is not longer.
pub record IsSearchable (b : Ring) (s : List ℕ) : Type 0 where
  pub valid : IsValid b
  pub not_full : b.blen < b.alen
  pub small : b.alen < 2 ^ 31
  pub some_byte : 0 < length s
  pub fits : length s ≤ b.blen

-- On a searchable ring `find` ends after at most a round for each place where the string could
-- stand and one more, with the end of its first occurrence in the bytes held, or with 0 where there
-- is none.
pub find-IsEndOfFirst :
    {b : Ring} {s : List ℕ} (fuel : ℕ)
    → IsSearchable b s
    → b.blen + 2 ≤ fuel + length s
    → (m : ℕ) × (find fuel b s ≡ some (pos m)) × IsEndOfFirst (contents b) s m
find-IsEndOfFirst {b} {s} fuel h enough =
    let r = find_from_start h.valid s h.some_byte h.fits fuel enough in
    (
      r.0,
      find_of_loop fuel b s r.0
          (positions_apart h.valid (omega (arith, h.some_byte, h.fits)) h.not_full)
          (omega
            (arith, end-le (contents b) s r.0 r.2, length-contents b, h.small, h.valid.blen_in))
          r.1,
      r.2,
    )

read_found-nothing : (b : Ring) → read_found b 0 ≡ ret ([], b)
unfolding read_found
read_found-nothing b = refl

read_found-prefix :
    {b : Ring} (m : ℕ)
    → IsValid b
    → 0 < m
    → m ≤ b.blen
    → (b' : Ring) × (read_found b m ≡ ret (string (take m (contents b)) ∷ [], b'))
      × IsValid b'
      × (contents b' ≡ drop m (contents b))
unfolding read_found Queue.read
read_found-prefix {b} m v h fits =
    let r = read-Refines (pos m) false v (omega (arith, v.blen_in, v.small)) in
    (
      r.after,
      ground (arith, r.returns, length-contents b, v.blen_in, v.small),
      r.valid,
      r.bytes ∙ ground (arith, length-contents b),
    )

readuntil_of_find :
    (fuel : ℕ) (b : Ring) (s : List ℕ) (m : ℕ)
    → m < 2 ^ 31
    → find fuel b s ≡ some (pos m)
    → readuntil fuel b s ≡ some (read_found b m)
unfolding readuntil
readuntil_of_find fuel b s m h e = ground arith

-- On a valid ring that is not full, with less than 2^31 bytes of storage, and for a string that
-- is not empty and no longer than the contents, `rb_readuntil` ends, on fuel for each place where
-- the string can begin and one more. Where the string does not occur it returns nothing and
-- leaves the ring alone; otherwise it returns the bytes up to and with the first occurrence, and
-- the ring that is left is valid and holds the bytes behind it.
pub readuntil_lem :
    {b : Ring} {s : List ℕ} (fuel : ℕ)
    → IsSearchable b s
    → b.blen + 2 ≤ fuel + length s
    → (m : ℕ) × IsEndOfFirst (contents b) s m
      × (m ≡ 0 → readuntil fuel b s ≡ some (ret ([], b)))
      × (0 < m
          → (b' : Ring) × (readuntil fuel b s ≡ some (ret (string (take m (contents b)) ∷ [], b')))
            × IsValid b'
            × (contents b' ≡ drop m (contents b)))
readuntil_lem {b} {s} fuel h enough =
    let r = find-IsEndOfFirst fuel h enough in
    let held : r.0 ≤ b.blen = omega (arith, end-le (contents b) s r.0 r.2, length-contents b) in
    let runs : readuntil fuel b s ≡ some (read_found b r.0) =
      readuntil_of_find fuel b s r.0 (omega (arith, h.small, h.not_full)) r.1 in
    (
      r.0,
      r.2,
      λ e. runs ∙ ap (λ k. some (read_found b k)) e ∙ ap some (read_found-nothing b),
      λ p. let t = read_found-prefix r.0 h.valid p held in (t.0, runs ∙ ap some t.1, t.2, t.3),
    )
