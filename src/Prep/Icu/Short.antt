-- ===== src/Prep/Icu/Short.antt =====
-- What the functions over ICU return.
use prosody.Base.{
  ℕ, ◌≤◌, ◌<◌, ◌≡◌, refl, Bool, true, false, ◌&&◌, ◌||◌, not, List, Option, length, take,
  length-take, ltb, leb, ◌==◌, Bool-cases, inl, inr, if◌then◌else◌, arith,
}
use prosody.Base.Int.{ℤ, pos, ltb_ℤ}
use prosody.Base.Word.{int_of_size}
use prosody.Base.Lua.{Value, nil, boolean, integer, string, Outcome, ret}
use prosody.Prep.{Profile}
use prosody.Prep.Icu.{
  Written, Icu, failure, within, flags_of, push_output, push_utf8, icu_stringprep_prep, push_name,
  to_ascii, to_unicode,
}

-- nil, or a text below 1024 bytes.
abbrev pub IsShort : Value → Type 0
IsShort nil = Unit
IsShort (string s) = length s < 1024
IsShort (boolean b) = ⊥
IsShort (integer n) = ⊥

-- The function returns such a value.
abbrev pub Returns : Outcome Value → Type 0
Returns o = (v : Value) × (o ≡ ret v) × IsShort v

-- No call writes more units than there is room for, and the length that it tells of UTF-8 without a
-- failure is that of what it wrote.
pub record Fits (icu : Icu) : Type 0 where
  pub from_utf8 :
      (capacity : ℕ) (s : List ℕ) (n err : ℤ)
      → length (icu.from_utf8 capacity s n err).units ≤ capacity
  pub to_utf8 :
      (capacity : ℕ) (s : List ℕ) (n err : ℤ)
      → length (icu.to_utf8 capacity s n err).units ≤ capacity
  pub told :
      (capacity : ℕ) (s : List ℕ) (n err : ℤ)
      → failure (icu.to_utf8 capacity s n err).err ≡ false
      → (icu.to_utf8 capacity s n err).len ≡ pos (length (icu.to_utf8 capacity s n err).units)
  pub prepare :
      (profile : Profile) (s : List ℕ) (n : ℤ) (capacity flags : ℕ) (err : ℤ)
      → length (icu.prepare profile s n capacity flags err).units ≤ capacity
  pub name_to_ascii :
      (s : List ℕ) (n : ℤ) (capacity : ℕ) (err : ℤ)
      → length (icu.name_to_ascii s n capacity err).1.units ≤ capacity
  pub name_to_unicode :
      (s : List ℕ) (n : ℤ) (capacity : ℕ) (err : ℤ)
      → length (icu.name_to_unicode s n capacity err).1.units ≤ capacity

within-Returns :
    (capacity : ℕ) (w : Written) (next : Outcome Value)
    → length w.units ≤ capacity
    → Returns next
    → Returns (within capacity w next)
within-Returns capacity w next h r =
    let fits : leb (length w.units) capacity ≡ true = ground (arith, h) in rw fits r

nil_or : (b : Bool) (next : Outcome Value) → Returns next → Returns (if b then ret nil else next)
nil_or true next r = (nil, refl, tt)
nil_or false next r = r

push_output-Returns :
    (out : Written)
    → out.len ≡ pos (length out.units)
    → length out.units < 1024
    → Returns (push_output out)
push_output-Returns out told h =
    let known : ltb (length out.units) (length out.units) ≡ false = ground arith in
    (
      string (take (length out.units) out.units),
      rw (told, known) refl,
      omega (arith, h, length-take (length out.units) out.units),
    )

module _ (icu : Icu) (fits : Fits icu) where
  push_utf8-Returns : (dest : Written) → Returns (push_utf8 icu dest)
  unfolding push_utf8
  push_utf8-Returns dest =
      let out = icu.to_utf8 1024 dest.units dest.len dest.err in
      within-Returns 1024 out _ (fits.to_utf8 1024 dest.units dest.len dest.err)
        (elim (Bool-cases (not (failure out.err) && ltb_ℤ out.len (pos 1024))) [
          | inl done ↦
              let parts : (failure out.err ≡ false) × (ltb_ℤ out.len (pos 1024) ≡ true) =
                ground (arith, done) in
              let told = fits.told 1024 dest.units dest.len dest.err parts.0 in
              rw done (push_output-Returns out told (ground (arith, told, parts.1)))
          | inr failed ↦ rw failed (nil, refl, tt)
        ])

  push_name-Returns :
      (done : ℕ × Written) → length done.1.units ≤ 1024 → Returns (push_name icu done)
  unfolding push_name
  push_name-Returns done h =
      within-Returns 1024 done.1 _ h
        (nil_or (failure done.1.err || not (done.0 == 0)) _ (push_utf8-Returns done.1))

-- Over an ICU that keeps to its buffers and tells the length of the UTF-8 that it wrote,
-- `icu_stringprep_prep`, `to_ascii` and `to_unicode` never go past a buffer, whatever the text:
-- they return nil or a text of less than 1024 bytes.
pub prep-Returns :
    (icu : Icu)
    → Fits icu
    → (profile : Profile) (s : List ℕ) (strict : Option Bool)
    → Returns (icu_stringprep_prep icu profile s strict)
      × Returns (to_ascii icu s)
      × Returns (to_unicode icu s)
unfolding icu_stringprep_prep to_ascii to_unicode
prep-Returns icu fits profile s strict =
    let u = icu.from_utf8 1024 s (int_of_size (length s)) (pos 0) in
    let p = icu.prepare profile u.units u.len 1024 (flags_of strict) u.err in
    let small = fits.from_utf8 1024 s (int_of_size (length s)) (pos 0) in
    (
      nil_or (leb 1024 (length s)) _ (
          within-Returns 1024 u _ small (
            nil_or (failure u.err) _ (
              within-Returns 1024 p _
                (fits.prepare profile u.units u.len 1024 (flags_of strict) u.err)
                (nil_or (failure p.err) _ (push_utf8-Returns icu fits p))))),
      within-Returns 1024 u _ small (
          nil_or (failure u.err) _ (
            push_name-Returns icu fits _
              (omega (arith, fits.name_to_ascii u.units u.len 256 u.err)))),
      within-Returns 1024 u _ small (
          nil_or (failure u.err) _
            (push_name-Returns icu fits _ (fits.name_to_unicode u.units u.len 1024 u.err))),
    )
