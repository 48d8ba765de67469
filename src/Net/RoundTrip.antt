-- ===== src/Net/RoundTrip.antt =====
-- `pton` of what `ntop` prints.
use prosody.Base.{
  take_all, ℕ, ◌≡◌, ◌≢◌, ◌∙◌, inr, refl, Bool, true, false, List, [], ◌∷◌, length, ◌==◌, All, arith,
}
use prosody.Base.Lua.{c_string, string}
use prosody.Net.{
  Family, inet, inet6, address, System, has_colon, address_size, pton_as, pton, ntop_as, ntop,
}

-- A string of C holds no zero byte.
abbrev pub IsText : List ℕ → Type 0
IsText s = All (λ c. c ≢ 0) s

c_string-IsText : (s : List ℕ) → IsText s → c_string s ≡ s
unfolding c_string
c_string-IsText [] h = refl
c_string-IsText (c ∷ rest) h =
    let rest_kept = c_string-IsText rest h.1 in
    let other : (c == 0) ≡ false = ground (arith, h.0) in rw (other, rest_kept) refl

abbrev pub is_inet6 : Family → Bool
is_inet6 inet = false
is_inet6 inet6 = true

pton-eq-pton_as :
    (system : System) (family : Family) (text : List ℕ)
    → c_string text ≡ text
    → has_colon text ≡ is_inet6 family
    → pton system text ≡ pton_as system family text
unfolding pton
pton-eq-pton_as system inet text whole e = rw (whole, e) refl
pton-eq-pton_as system inet6 text whole e = rw (whole, e) refl

-- Where inet_ntop prints an address of 4 or 16 bytes, as a text that inet_pton reads back in the same
-- family and that has a colon exactly in the family of 16 bytes, `ntop` returns that text and `pton`
-- of it returns the address.
pub pton-ntop :
    (system : System)
    → ((family : Family) (bytes text : List ℕ)
        → system.inet_ntop family bytes ≡ inr text
        → IsText text
          × (has_colon text ≡ is_inet6 family)
          × (system.inet_pton family text ≡ address bytes))
    → (family : Family) (bytes text : List ℕ) → length bytes ≡ address_size family
    → system.inet_ntop family bytes ≡ inr text
    → (ntop system bytes ≡ string text ∷ []) × (pton system text ≡ string bytes ∷ [])
unfolding ntop ntop_as pton_as
pton-ntop system reads_back inet bytes text l e =
    let back = reads_back inet bytes text e in
    let short : (length bytes == 16) ≡ false = ground arith in
    let four : (length bytes == 4) ≡ true = ground arith in
    (
      rw (short, four, e, ntop_as) refl,
      pton-eq-pton_as system inet text (c_string-IsText text back.0) back.1
          ∙ rw (back.2, take_all bytes 4 l, pton_as) refl,
    )
pton-ntop system reads_back inet6 bytes text l e =
    let back = reads_back inet6 bytes text e in
    let long : (length bytes == 16) ≡ true = ground arith in
    (
      rw (long, e, ntop_as) refl,
      pton-eq-pton_as system inet6 text (c_string-IsText text back.0) back.1
          ∙ rw (back.2, take_all bytes 16 l, pton_as) refl,
    )
