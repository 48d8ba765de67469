-- ===== src/Prep/Libidn/Tests.antt =====
-- The functions over a libidn that changes nothing, and the theorem at it.
use prosody.Base.{ℕ, ◌<◌, ◌≡◌, refl, [], ◌∷◌, none, some, length, arith}
use prosody.Base.Lua.{c_string, nil, string, ret}
use prosody.Utf8.{utf8_decode, continue_loop, finish, check_loop, check_utf8}
use prosody.Utf8.Valid.{IsUtf8}
use prosody.Prep.{nodeprep}
use prosody.Prep.Libidn.{
  Libidn, push_result, is_strict, prep_checked, stringprep_prep, to_ascii, to_unicode,
}
use prosody.Prep.Libidn.Checked.{prep-IsUtf8}

abbrev small : Libidn
small = record {
  stringprep = λ s size strict profile. some s;
  idna_to_ascii = λ s. some s;
  idna_to_unicode = λ s. some s;
}

-- Of a string with a NUL, one function takes the part before it, and the other nothing.
nul_ascii : to_ascii small (97 ∷ 0 ∷ 98 ∷ []) ≡ some (ret nil)
unfolding to_ascii check_utf8 check_loop utf8_decode continue_loop finish c_string
nul_ascii = refl

nul_unicode : to_unicode small (97 ∷ 0 ∷ 98 ∷ []) ≡ string (97 ∷ [])
unfolding to_unicode c_string
nul_unicode = refl

prepares :
    stringprep_prep small nodeprep (226 ∷ 130 ∷ 172 ∷ []) none
    ≡ some (ret (string (226 ∷ 130 ∷ 172 ∷ [])))
unfolding stringprep_prep prep_checked check_utf8 check_loop utf8_decode continue_loop finish
    c_string
prepares = refl

prep-IsUtf8_example :
    IsUtf8 (226 ∷ 130 ∷ 172 ∷ [])
    × (c_string (226 ∷ 130 ∷ 172 ∷ []) ≡ 226 ∷ 130 ∷ 172 ∷ [])
    × (length {A = ℕ} (226 ∷ 130 ∷ 172 ∷ []) < 1024)
    × (string (226 ∷ 130 ∷ 172 ∷ [])
        ≡ push_result (small.stringprep (226 ∷ 130 ∷ 172 ∷ []) 1024 (is_strict none) nodeprep))
prep-IsUtf8_example =
    prep-IsUtf8 small nodeprep (226 ∷ 130 ∷ 172 ∷ []) none (226 ∷ 130 ∷ 172 ∷ [])
      (omega arith, (omega arith, (omega arith, tt))) prepares
