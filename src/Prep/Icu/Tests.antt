-- ===== src/Prep/Icu/Tests.antt =====
-- The theorem over an ICU that changes nothing.
use prosody.Base.{
  ℕ, ◌≤◌, ◌≡◌, refl, true, List, [], ◌∷◌, none, some, length, take, length-take, arith,
}
use prosody.Base.Int.{ℤ, pos}
use prosody.Base.Lua.{string, ret}
use prosody.Prep.{nodeprep}
use prosody.Prep.Icu.{Written, Icu, push_utf8, icu_stringprep_prep, to_ascii, to_unicode}
use prosody.Prep.Icu.Short.{Returns, Fits, prep-Returns}

-- It cuts a text to what there is room for.
abbrev copied : ℕ → List ℕ → ℤ → Written
copied capacity s err = record {
  units = take capacity s;
  len = pos (length (take capacity s));
  err = err;
}

abbrev small : Icu
small = record {
  from_utf8 = λ capacity s n err. copied capacity s err;
  to_utf8 = λ capacity s n err. copied capacity s err;
  prepare = λ profile s n capacity flags err. copied capacity s err;
  name_to_ascii = λ s n capacity err. (0, copied capacity s err);
  name_to_unicode = λ s n capacity err. (0, copied capacity s err);
  skeleton = λ s n capacity err. copied capacity s err;
}

copies : icu_stringprep_prep small nodeprep (106 ∷ 105 ∷ []) none ≡ ret (string (106 ∷ 105 ∷ []))
unfolding icu_stringprep_prep push_utf8
copies = refl

take_fits : (n : ℕ) (s : List ℕ) → length (take n s) ≤ n
take_fits n s = omega (arith, length-take n s)

small-Fits : Fits small
small-Fits = record {
  from_utf8 = λ capacity s n err. take_fits capacity s;
  to_utf8 = λ capacity s n err. take_fits capacity s;
  told = λ capacity s n err e. refl;
  prepare = λ profile s n capacity flags err. take_fits capacity s;
  name_to_ascii = λ s n capacity err. take_fits capacity s;
  name_to_unicode = λ s n capacity err. take_fits capacity s;
}

prep-Returns_example :
    Returns (icu_stringprep_prep small nodeprep (106 ∷ 105 ∷ []) (some true))
    × Returns (to_ascii small (106 ∷ 105 ∷ []))
    × Returns (to_unicode small (106 ∷ 105 ∷ []))
prep-Returns_example = prep-Returns small small-Fits nodeprep (106 ∷ 105 ∷ []) (some true)
