-- ===== src/Pposix/Append/Atomic.antt =====
-- `atomic_append` appends all of the data or leaves the file as it was.
use prosody.Base.{
  ℕ, ◌≡◌, ◌∙◌, inl, inr, refl, sym, ap, subst, true, false, Bool-cases, List, [], ◌∷◌, ◌++◌, length,
  take, take-append, ◌==◌, ==_iff,
}
use prosody.Base.Int.{ℤ, pos}
use prosody.Base.Lua.{Value, boolean, Outcome, ret, raise}
use prosody.Pposix.{failure}
use prosody.Pposix.Append.{Stdio, is_zero, error_of, is_ignored, cut_back, write_out, atomic_append}

module _ {ℓ} {F : Type ℓ} (stdio : Stdio F) (content : F → List ℕ) where
  -- What the file holds is kept, and more may follow.
  abbrev pub Extends : F → F → Type 0
  Extends f f' = (rest : List ℕ) × (content f' ≡ content f ++ rest)

  abbrev pub AtEnd : F → Type 0
  AtEnd f = stdio.ftell f ≡ pos (length (content f))

  -- The manuals: fallocate(2) that keeps the size changes neither the contents nor the position; at
  -- the end of the file, fwrite(3) that takes all and fflush(3) that succeeds have appended the data,
  -- and where either fails the bytes before are kept when fseek(3) has written what was pending;
  -- ftruncate(2) cuts where it succeeds and changes nothing where it fails.
  pub record Appends : Type ℓ where
    pub reserves :
        (f : F) (offset len : ℤ)
        → AtEnd f
        → (content (stdio.fallocate f true offset len).2 ≡ content f)
          × AtEnd (stdio.fallocate f true offset len).2
    pub writes :
        (f : F) (bytes : List ℕ)
        → AtEnd f
        → Extends f (stdio.fseek (stdio.fwrite f bytes).1 (pos (length (content f))))
    pub flushes :
        (f : F) (bytes : List ℕ)
        → AtEnd f
        → Extends f
            (stdio.fseek (stdio.fflush (stdio.fwrite f bytes).1).2 (pos (length (content f))))
    pub writes_all :
        (f : F) (bytes : List ℕ)
        → AtEnd f
        → (stdio.fwrite f bytes).0 ≡ length bytes
        → is_zero (stdio.fflush (stdio.fwrite f bytes).1).0 ≡ true
        → content (stdio.fflush (stdio.fwrite f bytes).1).2 ≡ content f ++ bytes
    pub cuts :
        (f : F) (n : ℕ)
        → is_zero (stdio.ftruncate f (pos n)).0 ≡ true
        → content (stdio.ftruncate f (pos n)).1 ≡ take n (content f)
    pub fails :
        (f : F) (offset : ℤ)
        → is_zero (stdio.ftruncate f offset).0 ≡ false
        → content (stdio.ftruncate f offset).1 ≡ content f

  -- How a call ends.
  pub data Ended (f : F) (bytes : List ℕ) : Outcome (List Value) × F → Type ℓ where
    appended :
        {f' : F} → content f' ≡ content f ++ bytes → Ended f bytes (ret (boolean true ∷ []), f')
    unchanged :
        {f' : F} (err : ℤ)
        → content f' ≡ content f
        → Ended f bytes (ret (failure stdio.strerror err), f')
    corrupt :
        (g : F)
        → is_zero (stdio.ftruncate g (pos (length (content f)))).0 ≡ false
        → Extends f (stdio.ftruncate g (pos (length (content f)))).1
        → Ended f bytes (raise, (stdio.ftruncate g (pos (length (content f)))).1)

  -- `corrupt` at an offset that is the length of the contents.
  corrupt-at :
      {f : F} {bytes : List ℕ} (n : ℕ)
      → n ≡ length (content f)
      → (g : F) → is_zero (stdio.ftruncate g (pos n)).0 ≡ false
      → Extends f (stdio.ftruncate g (pos n)).1
      → Ended f bytes (raise, (stdio.ftruncate g (pos n)).1)
  corrupt-at {f} {bytes} n same g =
      subst
        (λ m.
          is_zero (stdio.ftruncate g (pos m)).0 ≡ false
          → Extends f (stdio.ftruncate g (pos m)).1
          → Ended f bytes (raise, (stdio.ftruncate g (pos m)).1))
        (sym same) (corrupt g)

  Ended-same :
      {f g : F} {bytes : List ℕ} {result : Outcome (List Value) × F}
      → content g ≡ content f
      → Ended g bytes result
      → Ended f bytes result
  Ended-same {bytes} e (appended h) = appended (h ∙ ap (λ s. s ++ bytes) e)
  Ended-same e (unchanged err h) = unchanged err (h ∙ e)
  Ended-same {f} {g} {bytes} e (corrupt g' failed (rest, h)) =
      corrupt-at (length (content g)) (ap length e) g' failed (rest, h ∙ ap (λ s. s ++ rest) e)

  module _ (laws : Appends) (bytes : List ℕ) where
    cut_back-Ended :
        (f g : F) (err : ℤ)
        → Extends f (stdio.fseek g (pos (length (content f))))
        → Ended f bytes (cut_back stdio g (pos (length (content f))) err)
    unfolding cut_back
    cut_back-Ended f g err (rest, more) =
        let n = length (content f) in
        let sought = stdio.fseek g (pos n) in
        elim (Bool-cases (is_zero (stdio.ftruncate sought (pos n)).0)) [
          | inl e ↦
              rw (e, cut_back)
                (unchanged err
                  (laws.cuts sought n e ∙ ap (take n) more ∙ take-append (content f) rest n refl))
          | inr e ↦ rw (e, cut_back) (corrupt sought e (rest, laws.fails sought (pos n) e ∙ more))
        ]

    write_out-Ended :
        (f : F) → AtEnd f → Ended f bytes (write_out stdio f bytes (pos (length (content f))))
    unfolding write_out
    write_out-Ended f at_end =
        let written = stdio.fwrite f bytes in
        let flushed = stdio.fflush written.1 in
        elim (Bool-cases (written.0 == length bytes)) [
          | inr e ↦
              rw (e, write_out)
                (cut_back-Ended f written.1 (stdio.ferror written.1) (laws.writes f bytes at_end))
          | inl e ↦ elim (Bool-cases (is_zero flushed.0)) [
            | inl e' ↦
                rw (e, e', write_out)
                  (appended (laws.writes_all f bytes at_end ((==_iff _ _).0 e) e'))
            | inr e' ↦
                rw (e, e', write_out)
                  (cut_back-Ended f flushed.2 flushed.1 (laws.flushes f bytes at_end))
          ]
        ]

-- On a file at its end and over stdio and system calls that do what their manuals say, however
-- these end: `atomic_append` returns true and the data follows what the file held, or it returns
-- an error and the file holds what it held, or it raises an error, after an ftruncate(2) to the
-- length that the file had has failed, and the file begins with what it held.
pub atomic_append-Ended {ℓ} :
    {F : Type ℓ} (stdio : Stdio F) (content : F → List ℕ)
    → Appends stdio content
    → (f : F) (bytes : List ℕ) → AtEnd stdio content f
    → Ended stdio content f bytes (atomic_append stdio f bytes)
unfolding atomic_append
atomic_append-Ended stdio content laws f bytes at_end =
    let reserved = stdio.fallocate f true (stdio.ftell f) (pos (length bytes)) in
    let kept = laws.reserves f (stdio.ftell f) (pos (length bytes)) at_end in
    let offset : stdio.ftell f ≡ pos (length (content reserved.2)) =
      at_end ∙ ap (λ s. pos (length s)) (sym kept.0) in
    let written : Ended stdio content f bytes (write_out stdio reserved.2 bytes (stdio.ftell f)) =
      subst (λ o. Ended stdio content f bytes (write_out stdio reserved.2 bytes o)) (sym offset)
        (Ended-same stdio content kept.0
          (write_out-Ended stdio content laws bytes reserved.2 kept.1)) in
    elim (Bool-cases (is_zero reserved.0)) [
      | inl e ↦ rw (e, atomic_append) written
      | inr e ↦ elim (Bool-cases (is_ignored (error_of reserved.0 reserved.1))) [
        | inl e' ↦ rw (e, e', atomic_append) written
        | inr e' ↦ rw (e, e', atomic_append) (unchanged (error_of reserved.0 reserved.1) kept.0)
      ]
    ]
