-- ===== src/Base64/Tests.antt =====
-- base64 on the inputs of spec/util_encodings_spec.lua, and the theorems at such inputs.
use mathlib.Core.Option
use prosody.Base.{ℕ, ◌+◌, ◌*◌, ◌/◌, ◌≡◌, refl, List, [], ◌∷◌, none, some, length, codes, arith}
use prosody.Base.Lua.{ret}
use prosody.Base64.{
  base64_encode, encode_loop, encode, base64_decode, index_of, is_space, push_digit, step,
  decode_loop, decode,
}
use prosody.Base64.RoundTrip.{decode-encode}

encode_coucou : encode (codes "coucou") ≡ ret (codes "Y291Y291")
unfolding encode encode_loop base64_encode
encode_coucou = refl

encode_high : encode (255 ∷ 255 ∷ 255 ∷ []) ≡ ret (codes "////")
unfolding encode encode_loop base64_encode
encode_high = refl

decode_coucou : decode (codes "Y291Y291") ≡ some (codes "coucou")
unfolding decode decode_loop step Option.bind push_digit base64_decode index_of is_space
decode_coucou = refl

decode_foreign : decode (codes "Y2!1") ≡ none
unfolding decode decode_loop step Option.bind push_digit base64_decode index_of is_space
decode_foreign = refl

decode-encode_example :
    (e : List ℕ) × (encode (0 ∷ 200 ∷ 7 ∷ 9 ∷ []) ≡ ret e)
    × (length e ≡ 4 * ((4 + 2) / 3))
    × (decode e ≡ some (0 ∷ 200 ∷ 7 ∷ 9 ∷ []))
decode-encode_example = decode-encode (0 ∷ 200 ∷ 7 ∷ 9 ∷ []) (omega arith) (omega arith)
