-- ===== src/Prep/Libidn/Checked.antt =====
-- The strings that libidn is given.
use mathlib.Core.Option
use prosody.Base.{
  ℕ, ◌<◌, ◌≡◌, refl, ap, subst, ◌∙◌, Bool, true, List, [], ◌∷◌, Option, some, length, ◌==◌,
  Bool-cases, inl, inr, All, arith,
}
use prosody.Base.Lua.{c_string, Value, string, Outcome, ret, raise, fault, ◌>>=◌}
use prosody.Utf8.Decode.{IsByte}
use prosody.Utf8.Valid.{IsUtf8, check_utf8_lem}
use prosody.Prep.{Profile}
use prosody.Prep.Libidn.{Libidn, push_result, is_strict, prep_checked, stringprep_prep}

-- A string without a NUL is what C reads of it.
c_string_whole : (s : List ℕ) → length s ≡ length (c_string s) → c_string s ≡ s
unfolding c_string
c_string_whole [] e = refl
c_string_whole (c ∷ s) e = elim (Bool-cases (c == 0)) [
  | inl h ↦ absurd (ground (arith, h, e))
  | inr h ↦
      let rest : length s ≡ length (c_string s) = ground (arith, h, e) in
      rw h (ap (λ t. c ∷ t) (c_string_whole s rest))
]

prep_checked-ret :
    (libidn : Libidn) (profile : Profile) (s : List ℕ) (strict : Option Bool) (valid : Bool)
    (text : List ℕ)
    → prep_checked libidn profile s strict valid ≡ ret (string text)
    → (valid ≡ true)
      × (c_string s ≡ s)
      × (length s < 1024)
      × (string text ≡ push_result (libidn.stringprep s 1024 (is_strict strict) profile))
unfolding prep_checked
prep_checked-ret libidn profile s strict valid text e =
    let prepared = push_result (libidn.stringprep (c_string s) 1024 (is_strict strict) profile) in
    let parts : (valid ≡ true)
        × (length s ≡ length (c_string s))
        × (length s < 1024)
        × (string text ≡ prepared) =
      ground (arith, e) in
    let whole = c_string_whole s parts.1 in
    (
      parts.0,
      whole,
      parts.2,
      subst (λ t. string text ≡ push_result (libidn.stringprep t 1024 (is_strict strict) profile))
          whole parts.3,
    )

bind-ret :
    (o : Outcome Bool) (f : Bool → Outcome Value) (v : Value)
    → (o >>= f) ≡ ret v
    → (b : Bool) × (o ≡ ret b) × (f b ≡ ret v)
bind-ret (ret b) f v e = (b, refl, e)
bind-ret raise f v e = absurd (ground (arith, e))
bind-ret fault f v e = absurd (ground (arith, e))

-- Where `stringprep_prep` of a string of bytes gives a text, the string is valid UTF-8 without a NUL
-- and of less than 1024 bytes, and the text is what libidn made of all of it.
pub prep-IsUtf8 :
    (libidn : Libidn) (profile : Profile) (s : List ℕ) (strict : Option Bool) (text : List ℕ)
    → All IsByte s
    → stringprep_prep libidn profile s strict ≡ some (ret (string text))
    → IsUtf8 s
      × (c_string s ≡ s)
      × (length s < 1024)
      × (string text ≡ push_result (libidn.stringprep s 1024 (is_strict strict) profile))
unfolding stringprep_prep
prep-IsUtf8 libidn profile s strict text bytes e =
    let (o, ends, accepts) = check_utf8_lem s bytes in
    let ran =
      subst
        (λ c.
          Option.map (λ o. o >>= prep_checked libidn profile s strict) c ≡ some (ret (string text)))
        ends e in
    let done : (o >>= prep_checked libidn profile s strict) ≡ ret (string text) =
      ground (arith, ran) in
    let (valid, told, rest) =
      bind-ret o (prep_checked libidn profile s strict) (string text) done in
    let checked = prep_checked-ret libidn profile s strict valid text rest in
    (accepts.0 (told ∙ ap ret checked.0), checked.1, checked.2, checked.3)
