-- ===== src/Utf8/Flaws.antt =====
-- A shift of `utf8_decode` by more than the width of its type.
use prosody.Base.{ℕ, ◌≡◌, ◌∙◌, refl, true, List, ◌∷◌}
use prosody.Base.Lua.{fault}
use prosody.Utf8.{is_continuation, finish, utf8_decode}
use prosody.Utf8.Loop.{loop_next, loop_stop}

finish-fault : (s : List ℕ) (c res : ℕ) → finish s c res 7 ≡ fault
unfolding finish
finish-fault s c res = refl

-- The byte 0xFF with seven continuation bytes behind it: the first byte is shifted by 35 bits.
pub utf8_decode-fault :
    (a b c d e f g : ℕ) (s : List ℕ)
    → is_continuation a ≡ true
    → is_continuation b ≡ true
    → is_continuation c ≡ true
    → is_continuation d ≡ true
    → is_continuation e ≡ true
    → is_continuation f ≡ true
    → is_continuation g ≡ true
    → utf8_decode 255 (a ∷ b ∷ c ∷ d ∷ e ∷ f ∷ g ∷ s) ≡ fault
unfolding utf8_decode
utf8_decode-fault a b c d e f g s ha hb hc hd he hf hg =
    loop_next a 255 0 0 _ refl ha
    ∙ loop_next b _ _ 1 _ refl hb
    ∙ loop_next c _ _ 2 _ refl hc
    ∙ loop_next d _ _ 3 _ refl hd
    ∙ loop_next e _ _ 4 _ refl he
    ∙ loop_next f _ _ 5 _ refl hf
    ∙ loop_next g _ _ 6 s refl hg
    ∙ loop_stop s _ _ 7 refl
    ∙ finish-fault s _ _
