-- ===== src/Crypto/Ecdsa/Tests.antt =====
-- Integers that are kept as bytes, and the theorems at them.
use prosody.Base.{
  ℕ, ◌+◌, ◌-◌, ◌≤◌, ◌≡◌, refl, ap, ap₂, ◌∙◌, List, [], ◌∷◌, ◌++◌, Option, none, some, length,
  length-append, take, drop, take-append, drop_behind, replicate, length-replicate, ◌==◌,
  if◌then◌else◌, true, arith,
}
use prosody.Base.Int.{pos}
use prosody.Base.Lua.{string, ret, fault}
use prosody.Crypto.Ecdsa.{Ecdsa, parse_ecdsa_signature, build_ecdsa_signature}
use prosody.Crypto.Ecdsa.Der.{header, der_size, EncodesDer, parse-build, build-fault}

-- Each integer takes one byte more than it was given with.
abbrev size : List ℕ → ℕ
size v = length v + 1

abbrev read_pair : List ℕ → Option (List ℕ × List ℕ)
read_pair [] = none
read_pair (m ∷ []) = none
read_pair (m ∷ n ∷ bytes) = some (take m bytes, take n (drop m bytes))

-- The rest of the size that DER has is filled up.
abbrev small : Ecdsa (List ℕ)
small = record {
  d2i = read_pair;
  i2d = λ r s.
      length r
      ∷ length s
      ∷ (r ++ (s ++ replicate (der_size (size r) (size s) - (2 + length r + length s)) 0));
  bn2binpad = λ v n. if length v == n then some v else none;
  bin2bn = λ bytes n. bytes;
}

header_some : (n : ℕ) → 2 ≤ header n
header_some n = ground arith

small-EncodesDer : EncodesDer small size
small-EncodesDer = record {
  encodes = λ r s.
      (let z : List ℕ = replicate (der_size (size r) (size s) - (2 + length r + length s)) 0 in
        let a = header_some (size r) in
        let b = header_some (size s) in
        omega (
          arith,
          a,
          b,
          length-append r (s ++ z),
          length-append s z,
          length-replicate {A = ℕ} (der_size (size r) (size s) - (2 + length r + length s)) 0,
        ));
  decodes = λ r s.
      (let z : List ℕ = replicate (der_size (size r) (size s) - (2 + length r + length s)) 0 in
        let n : length r ≡ length r + 0 = omega arith in
        let behind : drop (length r) (r ++ (s ++ z)) ≡ s ++ z =
          ap (λ m. drop m (r ++ (s ++ z))) n ∙ drop_behind r (s ++ z) 0 in
        ap₂ (λ a b. some (a, b)) (take-append r (s ++ z) (length r) refl)
          (ap (λ t. take (length s) t) behind ∙ take-append s z (length s) refl));
  pads =
      λ bytes h. (let same : (length bytes == length bytes) ≡ true = ground arith in rw same refl);
  sizes = λ bytes. omega arith;
}

parse-build_example :
    (sig_der : List ℕ) × (build_ecdsa_signature small (1 ∷ 255 ∷ []) (0 ∷ 7 ∷ [])
      ≡ ret (string sig_der))
    × (parse_ecdsa_signature small sig_der (pos 2)
        ≡ ret (string (1 ∷ 255 ∷ []) ∷ string (0 ∷ 7 ∷ []) ∷ []))
parse-build_example =
    parse-build small size small-EncodesDer (1 ∷ 255 ∷ []) (0 ∷ 7 ∷ [])
      (omega arith, (omega arith, tt)) (omega arith, (omega arith, tt)) refl (omega arith)

build-fault_example : build_ecdsa_signature small (replicate 130 255) (replicate 127 255) ≡ fault
build-fault_example =
    build-fault small size small-EncodesDer (replicate 130 255) (replicate 127 255) refl refl
      (omega arith) (omega arith) (omega arith) (omega arith)
