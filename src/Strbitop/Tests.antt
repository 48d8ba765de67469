-- ===== src/Strbitop/Tests.antt =====
-- The bit operations on small strings, and the theorems at such inputs.
use Prim.Native.Nat.{min, max, differ}
use prosody.Base.{ℕ, ◌≡◌, refl, List, [], ◌∷◌, arith}
use prosody.Strbitop.{
  and_loop, or_loop, xor_loop, strop_and, strop_or, strop_xor, clz, prefix_loop,
  strop_common_prefix_bits,
}
use prosody.Strbitop.Digits.{Combines, strop-Combines_each}
use prosody.Strbitop.Prefix.{bits_of, agreement, common_prefix_bits_lem}

abbrev text : List ℕ
text = b'h' ∷ b'e' ∷ b'y' ∷ []

abbrev key : List ℕ
key = 255 ∷ 1 ∷ []

xor_key : strop_xor text key ≡ 151 ∷ 100 ∷ 134 ∷ []
unfolding strop_xor xor_loop
xor_key = refl

and_key : strop_and text key ≡ 104 ∷ 1 ∷ 121 ∷ []
unfolding strop_and and_loop
and_key = refl

or_key : strop_or text key ≡ 255 ∷ 101 ∷ 255 ∷ []
unfolding strop_or or_loop
or_key = refl

prefix_run : strop_common_prefix_bits (1 ∷ 7 ∷ []) (1 ∷ 5 ∷ []) ≡ 14
unfolding strop_common_prefix_bits prefix_loop clz
prefix_run = refl

strop-Combines_each_example :
    Combines min text key (strop_and text key)
    × Combines max text key (strop_or text key)
    × Combines differ text key (strop_xor text key)
strop-Combines_each_example = strop-Combines_each text key

common_prefix_bits_lem_example :
    strop_common_prefix_bits (1 ∷ 7 ∷ []) (1 ∷ 5 ∷ [])
    ≡ agreement (bits_of (1 ∷ 7 ∷ [])) (bits_of (1 ∷ 5 ∷ []))
common_prefix_bits_lem_example =
    common_prefix_bits_lem (1 ∷ 7 ∷ []) (1 ∷ 5 ∷ []) (omega arith) (omega arith)
