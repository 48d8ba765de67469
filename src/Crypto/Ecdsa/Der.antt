-- ===== src/Crypto/Ecdsa/Der.antt =====
-- The size of a signature in DER, and the way back to its integers.
use prosody.Base.{
  ℕ, ◌+◌, ◌%◌, ◌^◌, ◌≤◌, ◌<◌, ◌≡◌, refl, subst, lt→ltb, false, List, [], ◌∷◌, some, length, All,
  ltb, if◌then◌else◌, arith,
}
use prosody.Base.Int.{pos}
use prosody.Base.Word.{size_of_ℤ, int_of_size}
use prosody.Base.Lua.{string, ret, fault}
use prosody.Crypto.{within}
use prosody.Crypto.Ecdsa.{
  Ecdsa, max_ecdsa_sig_int_bytes, push_integers, parse_ecdsa_signature, build_ecdsa_signature,
}

-- The tag and the length in front of `n` bytes.
abbrev pub header : ℕ → ℕ
header n =
    if ltb n 128
    then 2
    else if ltb n 256
    then 3
    else if ltb n (2 ^ 16)
    then 4
    else if ltb n (2 ^ 24)
    then 5
    else 6

-- The size of a sequence of two integers of `m` and `n` bytes.
abbrev pub der_size : ℕ → ℕ → ℕ
der_size m n = let content = (header m + m) + (header n + n) in header content + content

header_short : (n : ℕ) → n < 128 → header n ≡ 2
header_short n h = rw (lt→ltb n 128 h) refl

header_3 : (n : ℕ) → n < 256 → header n ≤ 3
header_3 n h = ground (arith, h)

-- Below 128 bytes, and from there on.
header_least : (n : ℕ) → 128 ≤ n → 3 ≤ header n
header_least n h = ground (arith, h)

header_long : (n : ℕ) → 256 ≤ n → 4 ≤ header n
header_long n h = ground (arith, h)

der_size_small : (m n : ℕ) → m ≤ 67 → n ≤ 67 → der_size m n ≤ m + n + 7
der_size_small m n h k =
    let a = header_short m (omega (arith, h)) in
    let b = header_short n (omega (arith, k)) in
    let c = header_3 (2 + m + (2 + n)) (omega (arith, h, k)) in rw (a, b) (omega (arith, c))

der_size_large : (m n : ℕ) → 128 ≤ m → 128 ≤ n → m + n + 10 ≤ der_size m n
der_size_large m n h k =
    let a = header_least m h in
    let b = header_least n k in
    let c = header_long ((header m + m) + (header n + n)) (omega (arith, a, b, h, k)) in
    omega (arith, a, b, c)

-- What OpenSSL does with the integers: `size` is the number of bytes of one in DER, which is that of
-- its digits and one more at most.
pub record EncodesDer {ℓ} {N : Type ℓ} (openssl : Ecdsa N) (size : N → ℕ) : Type ℓ where
  pub encodes : (r s : N) → length (openssl.i2d r s) ≡ der_size (size r) (size s)
  pub decodes : (r s : N) → openssl.d2i (openssl.i2d r s) ≡ some (r, s)
  pub pads :
      (bytes : List ℕ)
      → All (λ b. b < 256) bytes
      → openssl.bn2binpad (openssl.bin2bn bytes (pos (length bytes))) (length bytes) ≡ some bytes
  pub sizes : (bytes : List ℕ) → size (openssl.bin2bn bytes (pos (length bytes))) ≤ length bytes + 1

-- Over an OpenSSL that writes and reads DER, two strings of 66 bytes at most, and of equal
-- length: what `build_ecdsa_signature` makes of them has room in its buffer, and
-- `parse_ecdsa_signature` of that, asked for their length, gives them back.
pub parse-build {ℓ} :
    {N : Type ℓ} (openssl : Ecdsa N) (size : N → ℕ)
    → EncodesDer openssl size
    → (r s : List ℕ) → All (λ b. b < 256) r
    → All (λ b. b < 256) s
    → length s ≡ length r
    → length r ≤ 66
    → (sig_der : List ℕ) × (build_ecdsa_signature openssl r s ≡ ret (string sig_der))
      × (parse_ecdsa_signature openssl sig_der (pos (length r)) ≡ ret (string r ∷ string s ∷ []))
unfolding build_ecdsa_signature parse_ecdsa_signature push_integers
parse-build openssl size laws r s hr hs same h =
    let a = openssl.bin2bn r (pos (length r)) in
    let b = openssl.bin2bn s (pos (length s)) in
    let int_r : int_of_size (length r) ≡ pos (length r) = ground (arith, h) in
    let int_s : int_of_size (length s) ≡ pos (length s) = ground (arith, h, same) in
    let der = openssl.i2d a b in
    let ha = laws.sizes r in
    let hb = laws.sizes s in
    let short =
      der_size_small (size a) (size b) (omega (arith, ha, h)) (omega (arith, hb, h, same)) in
    let room = (length r + 1 + (length s + 1) + 7) % 2 ^ 64 in
    let fits : within room der ≡ ret tt =
      ground (arith, laws.encodes a b, short, ha, hb, h, same) in
    let wanted : size_of_ℤ (pos (length r)) ≡ length r = omega (arith, h) in
    let allowed : ltb max_ecdsa_sig_int_bytes (length r) ≡ false = ground (arith, h) in
    let r_fits : within max_ecdsa_sig_int_bytes r ≡ ret tt = ground (arith, h) in
    let s_fits : within max_ecdsa_sig_int_bytes s ≡ ret tt = ground (arith, h, same) in
    let r_back = laws.pads r hr in
    let s_back : openssl.bn2binpad b (length r) ≡ some s =
      subst (λ n. openssl.bn2binpad b n ≡ some s) same (laws.pads s hs) in
    (
      der,
      rw (int_r, int_s, fits) refl,
      rw (wanted, allowed, laws.decodes a b, wanted, r_back, s_back, r_fits, s_fits) refl,
    )

-- Over an OpenSSL that writes DER, two integers of 127 bytes or more, below 2 ^ 31, whose highest
-- bit is set do not fit: `build_ecdsa_signature` writes past the room that it asked for.
pub build-fault {ℓ} :
    {N : Type ℓ} (openssl : Ecdsa N) (size : N → ℕ)
    → EncodesDer openssl size
    → (r s : List ℕ) → size (openssl.bin2bn r (pos (length r))) ≡ length r + 1
    → size (openssl.bin2bn s (pos (length s))) ≡ length s + 1
    → 127 ≤ length r
    → 127 ≤ length s
    → length r < 2 ^ 31
    → length s < 2 ^ 31
    → build_ecdsa_signature openssl r s ≡ fault
unfolding build_ecdsa_signature
build-fault openssl size laws r s hr hs long_r long_s small_r small_s =
    let a = openssl.bin2bn r (pos (length r)) in
    let b = openssl.bin2bn s (pos (length s)) in
    let int_r : int_of_size (length r) ≡ pos (length r) = ground (arith, small_r) in
    let int_s : int_of_size (length s) ≡ pos (length s) = ground (arith, small_s) in
    let large =
      der_size_large (size a) (size b) (omega (arith, hr, long_r)) (omega (arith, hs, long_s)) in
    let room = (length r + 1 + (length s + 1) + 7) % 2 ^ 64 in
    let bursts : within room (openssl.i2d a b) ≡ fault =
      ground (arith, laws.encodes a b, large, hr, hs, small_r, small_s) in
    rw (int_r, int_s, bursts) refl
