-- ===== src/Utf8/Scalar.antt =====
-- UTF-8 as RFC 3629 describes it: the scalar values and their encoding.
use prosody.Base.{ℕ, ◌+◌, ◌/◌, ◌%◌, ◌≤◌, ◌<◌, ◌⊎◌, List, [], ◌∷◌, ◌++◌, ltb, if◌then◌else◌}

abbrev pub IsScalar : ℕ → Type 0
IsScalar v = (v < 55296) ⊎ ((57344 ≤ v) × (v < 1114112))

abbrev pub encode_char : ℕ → List ℕ
encode_char v =
    if ltb v 128
    then v ∷ []
    else if ltb v 2048
    then (192 + v / 64) ∷ (128 + v % 64) ∷ []
    else if ltb v 65536
    then (224 + v / 4096) ∷ (128 + v / 64 % 64) ∷ (128 + v % 64) ∷ []
    else (240 + v / 262144) ∷ (128 + v / 4096 % 64) ∷ (128 + v / 64 % 64) ∷ (128 + v % 64) ∷ []

abbrev pub encode_all : List ℕ → List ℕ
encode_all [] = []
encode_all (v ∷ vs) = encode_char v ++ encode_all vs
