-- ===== src/Utf8/Tests.antt =====
-- The check of UTF-8 on small inputs, and the theorems at such inputs.
use prosody.Base.{◌≡◌, ◌↔◌, refl, Bool, true, false, [], ◌∷◌, some, arith}
use prosody.Base.Lua.{Outcome, ret}
use prosody.Utf8.{utf8_decode, continue_loop, finish, check_loop, check_utf8}
use prosody.Utf8.Valid.{IsUtf8, check_utf8_lem}

-- The euro sign, U+20AC, and a byte behind it.
decode_euro : utf8_decode 226 (130 ∷ 172 ∷ 33 ∷ []) ≡ ret (some (8364, 33 ∷ []))
unfolding utf8_decode continue_loop finish
decode_euro = refl

-- An overlong NUL, and a surrogate.
check_overlong : check_utf8 (192 ∷ 128 ∷ []) ≡ some (ret false)
unfolding check_utf8 check_loop utf8_decode continue_loop finish
check_overlong = refl

check_surrogate : check_utf8 (237 ∷ 160 ∷ 128 ∷ []) ≡ some (ret false)
unfolding check_utf8 check_loop utf8_decode continue_loop finish
check_surrogate = refl

check_utf8_lem_example :
    (o : Outcome Bool) × (check_utf8 (226 ∷ 130 ∷ 172 ∷ []) ≡ some o)
    × ((o ≡ ret true) ↔ IsUtf8 (226 ∷ 130 ∷ 172 ∷ []))
check_utf8_lem_example =
    check_utf8_lem (226 ∷ 130 ∷ 172 ∷ []) (omega arith, (omega arith, (omega arith, tt)))
