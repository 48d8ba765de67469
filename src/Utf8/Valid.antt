-- ===== src/Utf8/Valid.antt =====
-- `check_utf8` ends on every string, and accepts the encodings of lists of scalar values.
use prosody.Base.{
  ℕ, zero, suc, ◌≤◌, ◌≡◌, ◌↔◌, ◌∙◌, refl, sym, ap, subst, Bool, true, false, List, [], ◌∷◌, ◌++◌,
  Option, none, some, length, length-append, arith, All,
}
use prosody.Base.Word.{long_of_size}
use prosody.Base.Lua.{boolean, integer, Outcome, ret, raise, fault}
use prosody.Utf8.{utf8_decode, check_loop, check_utf8, utf8_valid, utf8_length}
use prosody.Utf8.Scalar.{IsScalar, encode_char, encode_all}
use prosody.Utf8.Decode.{IsByte, utf8_decode-Decoded}
use prosody.Utf8.Encode.{utf8_decode-encode_char}

-- The encoding of a list of scalar values.
abbrev pub IsUtf8 : List ℕ → Type 0
IsUtf8 s = (vs : List ℕ) × All IsScalar vs × (s ≡ encode_all vs)

All-rest : (xs ys : List ℕ) → All IsByte (xs ++ ys) → All IsByte ys
All-rest [] ys h = h
All-rest (x ∷ xs) ys h = All-rest xs ys h.1

length-encode_char : (v : ℕ) → 1 ≤ length (encode_char v)
length-encode_char v = ground arith

-- What a round leaves is shorter, and still bytes.
rest_lem :
    (c v : ℕ) (s rest : List ℕ)
    → All IsByte (c ∷ s)
    → c ∷ s ≡ encode_char v ++ rest
    → (length rest ≤ length s) × All IsByte rest
rest_lem c v s rest bytes e = (
  omega (arith, ap length e, length-append (encode_char v) rest, length-encode_char v),
  All-rest (encode_char v) rest (subst (All IsByte) e bytes),
)

check_step :
    (fuel c : ℕ) (s : List ℕ) (v : ℕ) (rest : List ℕ)
    → utf8_decode c s ≡ ret (some (v, rest))
    → check_loop (suc fuel) (c ∷ s) ≡ check_loop fuel rest
unfolding check_loop
check_step fuel c s v rest e = ground (arith, e)

-- The loop ends, and what it accepts is UTF-8.
check_loop-IsUtf8 :
    (fuel : ℕ) (s : List ℕ)
    → All IsByte s
    → length s ≤ fuel
    → (o : Outcome Bool) × (check_loop fuel s ≡ some o) × (o ≡ ret true → IsUtf8 s)
unfolding check_loop
check_loop-IsUtf8 zero [] bytes h = (ret true, refl, λ e. ([], tt, refl))
check_loop-IsUtf8 (suc fuel) [] bytes h = (ret true, refl, λ e. ([], tt, refl))
check_loop-IsUtf8 zero (c ∷ s) bytes h = absurd (omega arith)
check_loop-IsUtf8 (suc fuel) (c ∷ s) bytes h = go (utf8_decode c s) (check_loop-IsUtf8 fuel) refl
  where
    go :
        (r : Outcome (Option (ℕ × List ℕ)))
        → ((s' : List ℕ)
            → All IsByte s'
            → length s' ≤ fuel
            → (o : Outcome Bool) × (check_loop fuel s' ≡ some o) × (o ≡ ret true → IsUtf8 s'))
        → utf8_decode c s ≡ r
        → (o : Outcome Bool) × (check_loop (suc fuel) (c ∷ s) ≡ some o)
          × (o ≡ ret true → IsUtf8 (c ∷ s))
    go (ret (some (v, rest))) again e =
        let d = utf8_decode-Decoded c v s rest bytes.0 bytes.1 e in
        let t = rest_lem c v s rest bytes d.1 in
        let (o, p, q) = again rest t.1 (omega (arith, t.0)) in
        (
          o,
          check_step fuel c s v rest e ∙ p,
          λ u.
              let (vs, scalars, r) = q u in
              (v ∷ vs, (d.0, scalars), d.1 ∙ ap (λ xs. encode_char v ++ xs) r),
        )
    go (ret none) again e = (ret false, ground (arith, e), λ u. absurd (ground (arith, u)))
    go raise again e = (raise, ground (arith, e), λ u. absurd (ground (arith, u)))
    go fault again e = (fault, ground (arith, e), λ u. absurd (ground (arith, u)))

check_encoded :
    (fuel c : ℕ) (s t rest : List ℕ) (v : ℕ)
    → t ≡ c ∷ s
    → utf8_decode c (s ++ rest) ≡ ret (some (v, rest))
    → check_loop fuel rest ≡ some (ret true)
    → check_loop (suc fuel) (t ++ rest) ≡ some (ret true)
check_encoded fuel c s t rest v p e done =
    ap (λ xs. check_loop (suc fuel) (xs ++ rest)) p ∙ check_step fuel c (s ++ rest) v rest e ∙ done

-- The loop accepts every encoding, given fuel for each byte.
check_loop-encode_all :
    (fuel : ℕ) (vs : List ℕ)
    → All IsScalar vs
    → length (encode_all vs) ≤ fuel
    → check_loop fuel (encode_all vs) ≡ some (ret true)
unfolding check_loop
check_loop-encode_all zero [] scalars h = refl
check_loop-encode_all (suc fuel) [] scalars h = refl
check_loop-encode_all zero (v ∷ vs) scalars h =
    absurd (omega (arith, length-encode_char v, length-append (encode_char v) (encode_all vs)))
check_loop-encode_all (suc fuel) (v ∷ vs) scalars h =
    let rest = encode_all vs in
    let (c, s, p, e) = utf8_decode-encode_char v rest scalars.0 in
    check_encoded fuel c s (encode_char v) rest v p e (
      check_loop-encode_all fuel vs scalars.1
        (omega (arith, length-encode_char v, length-append (encode_char v) rest)))

-- On every string of bytes `check_utf8` ends, and it accepts the string exactly where this is the
-- encoding of a list of scalar values: of none from U+D800 to U+DFFF or above U+10FFFF, and each by
-- its shortest form.
pub check_utf8_lem :
    (s : List ℕ)
    → All IsByte s
    → (o : Outcome Bool) × (check_utf8 s ≡ some o) × ((o ≡ ret true) ↔ IsUtf8 s)
unfolding check_utf8
check_utf8_lem s bytes =
    let (o, p, q) = check_loop-IsUtf8 (length s) s bytes (omega arith) in
    (
      o,
      p,
      (
        q,
        λ (vs, scalars, e).
            let accepts : check_loop (length s) s ≡ some (ret true) =
              subst (λ t. check_loop (length t) t ≡ some (ret true)) (sym e)
                (check_loop-encode_all (length (encode_all vs)) vs scalars (omega arith)) in
            let same : some o ≡ some (ret true) = sym p ∙ accepts in cc,
      ),
    )

-- Of the bytes that encode a list of scalar values `Lutf8_valid` returns true, and `Lutf8_length` the
-- number of these bytes, which is not that of the scalar values.
pub utf8_length_lem :
    (vs : List ℕ)
    → All IsScalar vs
    → All IsByte (encode_all vs)
    → (utf8_valid (encode_all vs) ≡ some (ret (boolean true)))
      × (utf8_length (encode_all vs) ≡ some (ret (integer (long_of_size (length (encode_all vs))))))
unfolding utf8_valid utf8_length
utf8_length_lem vs scalars bytes =
    let (o, p, q) = check_utf8_lem (encode_all vs) bytes in
    let e : check_utf8 (encode_all vs) ≡ some (ret true) = p ∙ ap some (q.1 (vs, scalars, refl)) in
    (rw e refl, rw e refl)
