-- ===== src/Base64/Refused.antt =====
-- Which strings `decode` refuses.
use prosody.Base.{
  ℕ, ◌<◌, ◌≡◌, ◌↔◌, refl, ◌∙◌, Bool, true, false, ◌&&◌, ◌||◌, not, List, [], ◌∷◌, Option, none,
  some, leb, ◌==◌, if◌then◌else◌, Bool-cases, Option-cases, arith, inl, inr, passes_below,
  test_of_passes_below,
}
use prosody.Base64.{code, index_of, is_space, Decoder, pad, push_digit, step, decode_loop, decode}
use prosody.Base64.RoundTrip.{IsBytes}
use prosody.Base64.Decode.{decode_loop_nul, decode_loop-none, decode_loop-some}

-- The alphabet by ranges.
is_alphabet : ℕ → Bool
is_alphabet c =
    leb b'A' c && leb c b'Z'
    || leb b'a' c && leb c b'z'
    || leb b'0' c && leb c b'9'
    || c == b'+'
    || c == b'/'

-- A byte that `decode` can take: of the alphabet, padding, or white space.
unfoldable pub is_known : ℕ → Bool
unfolding is_alphabet
is_known c = is_alphabet c || c == b'=' || is_space c

-- Every byte up to the first NUL is one that `decode` can take.
unfoldable pub is_wellformed : List ℕ → Bool
is_wellformed [] = true
is_wellformed (c ∷ s) = c == 0 || is_known c && is_wellformed s

is_some : Option ℕ → Bool
is_some none = false
is_some (some x) = true

agrees : ℕ → Bool
agrees c = if is_alphabet c then is_some (index_of code c) else not (is_some (index_of code c))

alphabet_table : passes_below agrees 256 ≡ true
unfolding passes_below agrees is_alphabet is_some index_of
alphabet_table = refl

step_known :
    (c : ℕ) (d : Decoder) → c < 256 → is_known c ≡ true → (d' : Decoder) × (step d c ≡ some d')
unfolding step is_known agrees is_some
step_known c d h k = elim (Bool-cases (c == b'=')) [
  | inl e ↦ (pad d, ground arith)
  | inr e ↦ elim (Bool-cases (is_space c)) [
    | inl q ↦ (d, ground arith)
    | inr q ↦ elim (Option-cases (index_of code c)) [
      | inl o ↦ absurd (ground (arith, test_of_passes_below agrees 256 c h alphabet_table))
      | inr (x, o) ↦ (push_digit d x, ground arith)
    ]
  ]
]

step_unknown : (c : ℕ) (d : Decoder) → c < 256 → is_known c ≡ false → step d c ≡ none
unfolding step is_known agrees is_some
step_unknown c d h k = ground (arith, test_of_passes_below agrees 256 c h alphabet_table)

decode_loop_total :
    (s : List ℕ) (d : Decoder)
    → IsBytes s
    → is_wellformed s ≡ true
    → (out : List ℕ) × (decode_loop s d ≡ some out)
unfolding is_wellformed
decode_loop_total [] d h k = (d.out, unfold decode_loop in refl)
decode_loop_total (c ∷ s) d h k = elim (Bool-cases (c == 0)) [
  | inl z ↦ (d.out, decode_loop_nul s c d z)
  | inr z ↦
      let known : is_known c ≡ true = ground arith in
      let more : is_wellformed s ≡ true = ground arith in
      let next = step_known c d h.0 known in
      let rest = decode_loop_total s next.0 h.1 more in
      (rest.0, decode_loop-some s c d next.0 z next.1 ∙ rest.1)
]

decode_loop_refused :
    (s : List ℕ) (d : Decoder) → IsBytes s → is_wellformed s ≡ false → decode_loop s d ≡ none
unfolding is_wellformed
decode_loop_refused [] d h k = absurd (ground arith)
decode_loop_refused (c ∷ s) d h k = elim (Bool-cases (is_known c)) [
  | inl known ↦
      let z : (c == 0) ≡ false = ground arith in
      let more : is_wellformed s ≡ false = ground arith in
      let next = step_known c d h.0 known in
      decode_loop-some s c d next.0 z next.1 ∙ decode_loop_refused s next.0 h.1 more
  | inr foreign ↦
      let z : (c == 0) ≡ false = ground arith in
      decode_loop-none s c d z (step_unknown c d h.0 foreign)
]

-- `decode` gives no result exactly where a byte outside the alphabet, padding and white space
-- stands before the first NUL; what stands behind a NUL, or how the padding stands, does not matter.
pub decode-none_iff : (s : List ℕ) → IsBytes s → (decode s ≡ none) ↔ (is_wellformed s ≡ false)
unfolding decode
decode-none_iff s h = (
  λ e. elim (Bool-cases (is_wellformed s)) [
    | inl w ↦
        let t = decode_loop_total s (record { t = []; out = [] }) h w in
        absurd (ground (arith, t.1, e))
    | inr w ↦ w
  ],
  λ w. decode_loop_refused s (record { t = []; out = [] }) h w,
)
