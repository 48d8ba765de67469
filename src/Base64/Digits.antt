-- ===== src/Base64/Digits.antt =====
-- The alphabet, and the steps of the decoder on it.
use mathlib.Core.Option
use mathlib.Core.List.{append-nil}
use native.Mathlib.Nat.{mod-lt}
use prosody.Base.{
  ℕ, ◌+◌, ◌*◌, ◌/◌, ◌%◌, ◌^◌, ◌<◌, ◌≡◌, refl, Bool, true, false, ◌&&◌, not, List, [], ◌∷◌, ◌++◌,
  Option, none, some, get_or, ◌==◌, if◌then◌else◌, arith, ap, ◌∙◌, passes_below,
  test_of_passes_below,
}
use prosody.Base64.{
  code, base64_encode, tuple_bytes, base64_decode, index_of, is_space, Decoder, pad, push_digit,
  step, decode_loop,
}

is_index : ℕ → Option ℕ → Bool
is_index d none = false
is_index d (some x) = x == d

is_index_sound : (d : ℕ) (o : Option ℕ) → is_index d o ≡ true → o ≡ some d
unfolding is_index
is_index_sound d none h = cc
is_index_sound d (some x) h = ground arith

-- A character of the alphabet is at its own place in it, and is none of the others that count.
is_digit : ℕ → Bool
is_digit d =
    let c = get_or code d 0 in
    is_index d (index_of code c) && not (c == 0) && not (c == b'=') && not (is_space c)

digit_table : passes_below is_digit 64 ≡ true
unfolding passes_below is_digit is_index index_of is_space
digit_table = refl

digit_facts :
    (d : ℕ)
    → is_digit d ≡ true
    → (index_of code (get_or code d 0) ≡ some d)
      × ((get_or code d 0 == 0) ≡ false)
      × ((get_or code d 0 == b'=') ≡ false)
      × (is_space (get_or code d 0) ≡ false)
unfolding is_digit
digit_facts d h = ground (arith, is_index_sound d (index_of code (get_or code d 0)))

-- The character of a digit.
abbrev pub char_of : ℕ → ℕ
char_of d = get_or code d 0

-- One round of the decoder on a character of the alphabet, and on the padding.
pub decode-char_of :
    (d : ℕ) (s : List ℕ) (st : Decoder)
    → d < 64
    → decode_loop (char_of d ∷ s) st ≡ decode_loop s (push_digit st d)
unfolding decode_loop step Option.bind
decode-char_of d s st h =
    let f = digit_facts d (test_of_passes_below is_digit 64 d h digit_table) in
    rw (f.1, f.2, f.3, f.0)

pub decode_pad : (s : List ℕ) (st : Decoder) → decode_loop (b'=' ∷ s) st ≡ decode_loop s (pad st)
unfolding decode_loop step Option.bind
decode_pad s st = refl

abbrev pub decoder : List ℕ → List ℕ → Decoder
decoder t out = record { t = t; out = out }

-- The decoder on the groups that the encoder writes.
module _ (d1 d2 d3 d4 : ℕ) (h1 : d1 < 64) (h2 : d2 < 64) (h3 : d3 < 64) (h4 : d4 < 64)
    (s out : List ℕ) where
  decode_four :
      decode_loop (char_of d1 ∷ char_of d2 ∷ char_of d3 ∷ char_of d4 ∷ s) (decoder [] out)
      ≡ decode_loop s (decoder [] (out ++ base64_decode d1 d2 d3 d4 4))
  unfolding push_digit
  decode_four =
      decode-char_of d1 _ _ h1
      ∙ decode-char_of d2 _ _ h2
      ∙ decode-char_of d3 _ _ h3
      ∙ decode-char_of d4 _ _ h4

module _ (d1 d2 d3 : ℕ) (h1 : d1 < 64) (h2 : d2 < 64) (h3 : d3 < 64) (s out : List ℕ) where
  decode_three_padded :
      decode_loop (char_of d1 ∷ char_of d2 ∷ char_of d3 ∷ b'=' ∷ s) (decoder [] out)
      ≡ decode_loop s (decoder [] (out ++ base64_decode d1 d2 d3 0 3))
  unfolding push_digit pad
  decode_three_padded =
      decode-char_of d1 _ _ h1
      ∙ decode-char_of d2 _ _ h2
      ∙ decode-char_of d3 _ _ h3
      ∙ decode_pad s _

module _ (d1 d2 : ℕ) (h1 : d1 < 64) (h2 : d2 < 64) (s out : List ℕ) where
  decode_two_padded :
      decode_loop (char_of d1 ∷ char_of d2 ∷ b'=' ∷ b'=' ∷ s) (decoder [] out)
      ≡ decode_loop s (decoder [] ((out ++ base64_decode d1 d2 0 0 2) ++ []))
  unfolding push_digit pad
  decode_two_padded =
      decode-char_of d1 _ _ h1 ∙ decode-char_of d2 _ _ h2 ∙ decode_pad (b'=' ∷ s) _ ∙ decode_pad s _

-- The number of three bytes, and the characters of its four digits, those behind the
-- bytes that count as padding.
abbrev pub tuple_of : ℕ → ℕ → ℕ → ℕ
tuple_of a b c = c + 256 * (b + 256 * a)

abbrev encoded : ℕ → ℕ → List ℕ
encoded tuple n =
    char_of (tuple / 64 / 64 / 64 % 64)
    ∷ char_of (tuple / 64 / 64 % 64)
    ∷ (if n == 1 then b'=' else char_of (tuple / 64 % 64))
    ∷ (if n == 3 then char_of (tuple % 64) else b'=')
    ∷ []

module _ (a b c : ℕ) (ha : a < 256) (hb : b < 256) (hc : c < 256) where
  small_tuple : tuple_of a b c % 2 ^ 64 ≡ tuple_of a b c
  small_tuple = omega arith

  encode_three : base64_encode a b c 3 ≡ encoded (tuple_of a b c) 3
  unfolding base64_encode
  encode_three = ap (λ k. encoded k 3) small_tuple

  encode_two : base64_encode a b c 2 ≡ encoded (tuple_of a b c) 2
  unfolding base64_encode
  encode_two = ap (λ k. encoded k 2) small_tuple

  encode_one : base64_encode a b c 1 ≡ encoded (tuple_of a b c) 1
  unfolding base64_encode
  encode_one = ap (λ k. encoded k 1) small_tuple

  -- The digits of the number make it up again.
  digits_tuple :
      tuple_of a b c % 64
        + 64
          * (tuple_of a b c / 64 % 64
              + 64 * (tuple_of a b c / 64 / 64 % 64 + 64 * (tuple_of a b c / 64 / 64 / 64 % 64)))
      ≡ tuple_of a b c
  digits_tuple = omega arith

  tuple_bytes-tuple_of : tuple_bytes (tuple_of a b c % 2 ^ 64) 3 ≡ a ∷ b ∷ c ∷ []
  unfolding tuple_bytes
  tuple_bytes-tuple_of = ground arith

  base64_decode-digits :
      base64_decode
        (tuple_of a b c / 64 / 64 / 64 % 64)
        (tuple_of a b c / 64 / 64 % 64)
        (tuple_of a b c / 64 % 64)
        (tuple_of a b c % 64)
        4
      ≡ a ∷ b ∷ c ∷ []
  unfolding base64_decode
  base64_decode-digits = rw digits_tuple tuple_bytes-tuple_of

  -- A group of three bytes is read back.
  pub decode_three :
      (s out : List ℕ)
      → decode_loop (base64_encode a b c 3 ++ s) (decoder [] out)
        ≡ decode_loop s (decoder [] (out ++ (a ∷ b ∷ c ∷ [])))
  decode_three s out =
      ap (λ e. decode_loop (e ++ s) (decoder [] out)) encode_three
      ∙ decode_four _ _ _ _ (mod-lt _ (omega arith)) (mod-lt _ (omega arith))
          (mod-lt _ (omega arith)) (mod-lt _ (omega arith)) s out
      ∙ ap (λ e. decode_loop s (decoder [] (out ++ e))) base64_decode-digits

module _ (a b : ℕ) (ha : a < 256) (hb : b < 256) where
  base64_decode_two :
      base64_decode
        (tuple_of a b 0 / 64 / 64 / 64 % 64)
        (tuple_of a b 0 / 64 / 64 % 64)
        (tuple_of a b 0 / 64 % 64)
        0
        3
      ≡ a ∷ b ∷ []
  unfolding base64_decode tuple_bytes
  base64_decode_two = ground arith

  -- The last two bytes are read back.
  pub decode_two :
      (out : List ℕ)
      → decode_loop (base64_encode a b 0 2) (decoder [] out) ≡ some (out ++ (a ∷ b ∷ []))
  unfolding decode_loop
  decode_two out =
      ap (λ e. decode_loop e (decoder [] out)) (encode_two a b 0 ha hb (omega arith))
      ∙ decode_three_padded _ _ _ (mod-lt _ (omega arith)) (mod-lt _ (omega arith))
          (mod-lt _ (omega arith)) [] out
      ∙ ap (λ e. some (out ++ e)) base64_decode_two

module _ (a : ℕ) (ha : a < 256) where
  base64_decode_one :
      base64_decode (tuple_of a 0 0 / 64 / 64 / 64 % 64) (tuple_of a 0 0 / 64 / 64 % 64) 0 0 2
      ≡ a ∷ []
  unfolding base64_decode tuple_bytes
  base64_decode_one = ground arith

  -- The last byte is read back.
  pub decode_one :
      (out : List ℕ) → decode_loop (base64_encode a 0 0 1) (decoder [] out) ≡ some (out ++ (a ∷ []))
  unfolding decode_loop
  decode_one out =
      ap (λ e. decode_loop e (decoder [] out)) (encode_one a 0 0 ha (omega arith) (omega arith))
      ∙ decode_two_padded _ _ (mod-lt _ (omega arith)) (mod-lt _ (omega arith)) [] out
      ∙ ap (λ e. some ((out ++ e) ++ [])) base64_decode_one
      ∙ ap some (append-nil _)
