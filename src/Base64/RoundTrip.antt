-- ===== src/Base64/RoundTrip.antt =====
-- `decode` reads back what `encode` wrote.
use mathlib.Core.List.{append-nil, append_assoc}
use prosody.Base.{
  ℕ, zero, suc, ◌+◌, ◌*◌, ◌/◌, ◌%◌, ◌^◌, ◌<◌, ◌≡◌, refl, sym, List, [], ◌∷◌, ◌++◌, some, length,
  length-append, get_or, drop, All, arith, ap, ◌∙◌,
}
use prosody.Base.Lua.{ret}
use prosody.Base64.{base64_encode, encode_loop, encode, decode_loop, decode}
use prosody.Base64.Digits.{decoder, decode_three, decode_two, decode_one}

abbrev pub IsBytes : List ℕ → Type 0
IsBytes s = All (λ c. c < 256) s

decode-encode_loop :
    (n m : ℕ) (s out : List ℕ)
    → IsBytes s
    → length s ≡ 3 * n + m
    → m < 3
    → decode_loop (encode_loop n m s) (decoder [] out) ≡ some (out ++ s)
unfolding encode_loop
decode-encode_loop zero zero [] out h l p = unfold decode_loop in ap some (sym (append-nil out))
decode-encode_loop zero (suc zero) (a ∷ []) out h l p = decode_one a h.0 out
decode-encode_loop zero (suc (suc zero)) (a ∷ b ∷ []) out h l p = decode_two a b h.0 h.1.0 out
decode-encode_loop (suc n) m (a ∷ b ∷ c ∷ s) out h l p =
    decode_three a b c h.0 h.1.0 h.1.1.0 (encode_loop n m s) out
    ∙ decode-encode_loop n m s (out ++ (a ∷ b ∷ c ∷ [])) h.1.1.1 (omega arith) p
    ∙ ap some (append_assoc out (a ∷ b ∷ c ∷ []) s)
decode-encode_loop n m s out h l p = absurd (omega arith)

length-base64_encode : (a b c n : ℕ) → 0 < n → n < 4 → length (base64_encode a b c n) ≡ 4
unfolding base64_encode
length-base64_encode a b c zero p q = absurd (omega arith)
length-base64_encode a b c (suc zero) p q = refl
length-base64_encode a b c (suc (suc zero)) p q = refl
length-base64_encode a b c (suc (suc (suc zero))) p q = refl
length-base64_encode a b c (suc (suc (suc (suc n)))) p q = absurd (omega arith)

length-encode_loop :
    (n m : ℕ) (s : List ℕ) → m < 3 → length (encode_loop n m s) ≡ 4 * n + 4 * ((m + 2) / 3)
unfolding encode_loop
length-encode_loop zero zero s p = refl
length-encode_loop zero (suc zero) s p = length-base64_encode _ _ _ 1 (omega arith) (omega arith)
length-encode_loop zero (suc (suc zero)) s p =
    length-base64_encode _ _ _ 2 (omega arith) (omega arith)
length-encode_loop zero (suc (suc (suc m))) s p = absurd (omega arith)
length-encode_loop (suc n) m s p = omega (
  arith,
  length-append (base64_encode (get_or s 0 0) (get_or s 1 0) (get_or s 2 0) 3)
      (encode_loop n m (drop 3 s)),
  length-base64_encode (get_or s 0 0) (get_or s 1 0) (get_or s 2 0) 3,
  length-encode_loop n m (drop 3 s) p,
)

-- Every string of bytes below the range of the group count is encoded, into four characters for
-- each group of three bytes that is begun, and decoding gives the string back.
pub decode-encode :
    (s : List ℕ)
    → IsBytes s
    → length s / 3 < 2 ^ 31
    → (e : List ℕ) × (encode s ≡ ret e)
      × (length e ≡ 4 * ((length s + 2) / 3))
      × (decode e ≡ some s)
unfolding encode decode
decode-encode s h l = (
  encode_loop (length s / 3) (length s % 3) s,
  ground arith,
  omega (arith, length-encode_loop (length s / 3) (length s % 3) s (omega arith)),
  decode-encode_loop (length s / 3) (length s % 3) s [] h (omega arith) (omega arith),
)
