-- ===== src/Crand/Filled.antt =====
-- The loop over getrandom(2) ends, and the result is what getrandom(2) gave.
use mathlib.Core.List.{append_assoc, append-nil}
use prosody.Base.{
  take-append, drop_behind, drop-drop, length-drop, ℕ, zero, suc, ◌+◌, ◌-◌, ◌%◌, ◌^◌, ◌≤◌, ◌<◌, ◌≡◌,
  ◌∙◌, ◌⊎◌, refl, sym, ap, subst, inl, inr, true, false, List, [], ◌++◌, Option, none, some,
  Option-cases, length, length-append, take, drop, ltb, ◌==◌, dec_lt, arith, if◌then◌else◌,
}
use prosody.Base.Int.{pos, negsuc, ◌-ℤ◌, ltb_ℤ}
use prosody.Base.Word.{int_of_size}
use prosody.Base.Lua.{ret, raise}
use prosody.Crand.{
  Run, overlay, ended, again, round, fill_loop, fill_getrandom, push_buf, lrandom, small_buf_size,
}

module _ {ℓ} {K : Type ℓ} (getrandom : K → ℕ → Option (List ℕ) × K) where
  -- Calls that ask for what is left bring `n` bytes in all.
  pub data Draws : K → ℕ → List ℕ → K → Type ℓ where
    drawn : {k : K} → Draws k 0 [] k
    draw :
        {n m : ℕ} {bytes rest : List ℕ} {k k1 k2 : K}
        → getrandom k n ≡ (some bytes, k1)
        → length bytes + m ≡ n
        → Draws k1 m rest k2
        → Draws k n (bytes ++ rest) k2

  -- Such calls of which one fails before there are `n` bytes.
  pub data Stops : K → ℕ → K → Type ℓ where
    fails : {n : ℕ} {k k1 : K} → getrandom k n ≡ (none, k1) → Stops k n k1
    draw_first :
        {n m : ℕ} {bytes : List ℕ} {k k1 k2 : K}
        → getrandom k n ≡ (some bytes, k1)
        → length bytes + m ≡ n
        → Stops k1 m k2
        → Stops k n k2

  -- getrandom(2): one byte at least, and no more than are asked for.
  abbrev pub IsSource : Type ℓ
  IsSource =
      (k : K) (n : ℕ) (bytes : List ℕ)
      → 0 < n
      → (getrandom k n).0 ≡ some bytes
      → (0 < length bytes) × (length bytes ≤ n)

overlay-append :
    (written room bytes : List ℕ)
    → overlay (written ++ room) (length written) bytes
      ≡ (written ++ bytes) ++ drop (length bytes) room
overlay-append written room bytes =
    rw (take-append written room (length written) refl, drop_behind written room (length bytes))
      refl

module _ (n : ℕ) (written room bytes : List ℕ) (small : n < 2 ^ 31) (fits : n ≤ length room) where
  -- Bytes that are all that is left.
  round-last :
      length bytes ≡ n
      → round (some bytes) (written ++ room) (length written) (pos n)
        ≡ ended (ret ((written ++ bytes) ++ drop n room))
  unfolding round
  round-last all =
      let as_int : int_of_size n ≡ pos n = ground arith in
      let left : pos n -ℤ pos n ≡ pos 0 = ground arith in
      let natural : ltb_ℤ (pos n) (pos 0) ≡ false = ground arith in
      let inside : ltb (length (written ++ room)) (length written + n) ≡ false =
        ground (arith, length-append written room) in
      rw (overlay-append written room bytes, all, as_int, left, natural, inside) refl

  -- Bytes that leave some.
  round-again :
      length bytes < n
      → round (some bytes) (written ++ room) (length written) (pos n)
        ≡ again
            ((written ++ bytes) ++ drop (length bytes) room)
            (length (written ++ bytes))
            (pos (n - length bytes))
  unfolding round
  round-again some_left =
      let b = length bytes in
      let as_int : int_of_size b ≡ pos b = ground arith in
      let left : pos n -ℤ pos b ≡ pos (n - b) = ground arith in
      let natural : ltb_ℤ (pos b) (pos 0) ≡ false = ground arith in
      let bounded : ltb_ℤ (pos (n - b)) (negsuc (2 ^ 31 - 1)) ≡ false = ground arith in
      let more : ltb_ℤ (pos 0) (pos (n - b)) ≡ true = ground arith in
      let inside : ltb (length (written ++ room)) (length written + b) ≡ false =
        ground (arith, length-append written room) in
      rw
        (
          overlay-append written room bytes,
          as_int,
          left,
          natural,
          inside,
          bounded,
          more,
          length-append written bytes,
        )
        refl

module _ {ℓ} {K : Type ℓ} (getrandom : K → ℕ → Option (List ℕ) × K)
    (source : IsSource getrandom) where
  -- Fuel for each byte is enough for the loop, from a position where the bytes before are written.
  fill_loop_lem :
      (fuel n : ℕ) (k : K) (written room : List ℕ)
      → 0 < n
      → n ≤ fuel
      → n < 2 ^ 31
      → n ≤ length room
      → ((bytes : List ℕ) × (k' : K) × (fill_loop getrandom fuel k
              (written ++ room)
              (length written)
              (pos n)
            ≡ some (ret ((written ++ bytes) ++ drop n room), k'))
          × (length bytes ≡ n)
          × Draws getrandom k n bytes k')
        ⊎ ((k' : K) × (fill_loop getrandom fuel k (written ++ room) (length written) (pos n)
              ≡ some (raise, k'))
            × Stops getrandom k n k')
  unfolding fill_loop
  fill_loop_lem zero n k written room p enough small fits = absurd (omega arith)
  fill_loop_lem (suc fuel) n k written room p enough small fits =
      let got = getrandom k n in
      let asked : n % 2 ^ 64 ≡ n = omega arith in
      elim (Option-cases got.0) [
        | inl e ↦
            inr
              (got.1, unfold round in rw (asked, e, fill_loop) refl, fails (ap (λ o. (o, got.1)) e))
        | inr (bytes, e) ↦
            let b = length bytes in
            let size = source k n bytes p e in
            let pair : got ≡ (some bytes, got.1) = ap (λ o. (o, got.1)) e in
            elim (dec_lt b n) [
              | no all ↦
                  let same : b ≡ n = omega arith in
                  inl (
                    bytes,
                    got.1,
                    rw (asked, e, round-last n written room bytes small fits same, fill_loop) refl,
                    same,
                    subst (λ s. Draws getrandom k n s got.1) (append-nil bytes)
                        (draw pair (omega arith) drawn),
                  )
              | yes more ↦
                  let onward = round-again n written room bytes small fits more in
                  let total : b + (n - b) ≡ n = omega arith in
                  let dropped : drop (n - b) (drop b room) ≡ drop n room =
                    drop-drop room (n - b) b ∙ ap (λ m. drop m room) total in
                  elim (fill_loop_lem fuel (n - b) got.1 (written ++ bytes) (drop b room)
                    (omega arith) (omega arith) (omega arith) (omega (arith, length-drop b room))) [
                      | inl (rest, k', e', l, draws) ↦ inl (
                        bytes ++ rest,
                        k',
                        rw
                            (
                              asked,
                              e,
                              onward,
                              sym (append_assoc written bytes rest),
                              sym dropped,
                              fill_loop,
                            )
                            e',
                        omega (arith, length-append bytes rest),
                        draw pair (omega arith) draws,
                      )
                      | inr (k', e', stops) ↦ inr (
                        k',
                        rw (asked, e, onward, fill_loop) e',
                        draw_first pair (omega arith) stops,
                      )
                    ]
            ]
      ]

module _ {ℓ} {K : Type ℓ} (fill : K → List ℕ → ℕ → Run K) (memory : ℕ → List ℕ) (k : K) where
  -- The buffer for a length.
  abbrev pub buffer : ℕ → List ℕ
  buffer n = if ltb small_buf_size n then memory n else memory small_buf_size

  lrandom-negsuc : (m : ℕ) → lrandom fill memory k (negsuc m) ≡ some (raise, k)
  unfolding lrandom
  lrandom-negsuc m =
      let negative : ltb_ℤ (negsuc m) (pos 0) ≡ true = ground arith in rw negative refl

  pub lrandom-pos :
      (n : ℕ)
      → 0 < n
      → n < 2 ^ 64
      → lrandom fill memory k (pos n) ≡ push_buf n (fill k (buffer n) n)
  unfolding lrandom
  lrandom-pos n p small =
      let natural : ltb_ℤ (pos n) (pos 0) ≡ false = ground arith in
      let asked : n % 2 ^ 64 ≡ n = omega arith in
      let some_asked : (n == 0) ≡ false = ground arith in rw (natural, asked, some_asked) refl

pub length-buffer :
    (memory : ℕ → List ℕ)
    → ((size : ℕ) → length (memory size) ≡ size)
    → (n : ℕ) → n ≤ length (if ltb small_buf_size n then memory n else memory small_buf_size)
length-buffer memory sized n = ground (arith, sized n, sized small_buf_size)

-- `Lrandom` over getrandom(2) ends, on fuel for each byte, for each length below 2 ^ 31, also where a
-- call gives fewer bytes than it was asked for. Either it returns a string of that length, the bytes
-- that the calls gave in order and nothing that was in the memory before, or it raises an error after
-- a call that failed. A negative length raises an error.
pub lrandom-Draws {ℓ} :
    {K : Type ℓ} (getrandom : K → ℕ → Option (List ℕ) × K) (memory : ℕ → List ℕ)
    → IsSource getrandom
    → ((size : ℕ) → length (memory size) ≡ size)
    → (fuel n m : ℕ) (k : K) → n ≤ fuel
    → n < 2 ^ 31
    → (((bytes : List ℕ) × (k' : K) × (lrandom (fill_getrandom getrandom fuel) memory k (pos n)
            ≡ some (ret bytes, k'))
          × (length bytes ≡ n)
          × Draws getrandom k n bytes k')
        ⊎ ((k' : K) × (lrandom (fill_getrandom getrandom fuel) memory k (pos n) ≡ some (raise, k'))
            × Stops getrandom k n k'))
      × (lrandom (fill_getrandom getrandom fuel) memory k (negsuc m) ≡ some (raise, k))
unfolding fill_getrandom push_buf
lrandom-Draws getrandom memory source sized fuel zero m k enough small =
    (inl ([], k, unfold lrandom in refl, refl, drawn), lrandom-negsuc _ memory k m)
lrandom-Draws getrandom memory source sized fuel (suc n) m k enough small =
    let fill = fill_getrandom getrandom fuel in
    let buf = if ltb small_buf_size (suc n) then memory (suc n) else memory small_buf_size in
    let room = length-buffer memory sized (suc n) in
    let as_int : int_of_size (suc n) ≡ pos (suc n) = ground arith in
    let called = lrandom-pos fill memory k (suc n) (omega arith) (omega arith) in
    let filled =
      fill_loop_lem getrandom source fuel (suc n) k [] buf (omega arith) enough small room in
    (
      elim filled [
        | inl (bytes, k', e, l, draws) ↦
            let taken : take (suc n) (bytes ++ drop (suc n) buf) ≡ bytes =
              take-append bytes (drop (suc n) buf) (suc n) l in
            inl (bytes, k', called ∙ rw (as_int, e) (ap (λ s. some (ret s, k')) taken), l, draws)
        | inr (k', e, stops) ↦ inr (k', called ∙ rw (as_int, e) refl, stops)
      ],
      lrandom-negsuc fill memory k m,
    )
