-- ===== src/Crypto/Ecdsa.antt =====
-- util-src/crypto.c: `Lparse_ecdsa_signature` and `Lbuild_ecdsa_signature`.
pub mod Der
mod Tests
use prosody.Base.{
  ℕ, ◌+◌, ◌%◌, ◌^◌, Bool, true, false, ◌||◌, List, [], ◌∷◌, Option, none, some, length, ltb,
  if◌then◌else◌,
}
use prosody.Base.Int.{ℤ, pos}
use prosody.Base.Word.{size_of_ℤ, int_of_size}
use prosody.Base.Lua.{Value, nil, string, Outcome, ret, raise, fault, ◌>>=◌}
use prosody.Crypto.{within}

-- The functions on big numbers, which are `N`, and on pairs of them. `bn2binpad` gives the bytes that
-- it writes, `none` for -1; `bin2bn` is given the bytes behind the pointer and their number as an
-- `int`.
pub record Ecdsa {ℓ} (N : Type ℓ) : Type ℓ where
  pub d2i : List ℕ → Option (N × N)
  pub i2d : N → N → List ℕ
  pub bn2binpad : N → ℕ → Option (List ℕ)
  pub bin2bn : List ℕ → ℤ → N

abbrev pub max_ecdsa_sig_int_bytes : ℕ
max_ecdsa_sig_int_bytes = 66

-- What follows both calls of BN_bn2binpad; `rb` and `sb` have room for the largest size.
pub push_integers : Option (List ℕ) → Option (List ℕ) → Outcome (List Value)
push_integers none _ = raise
push_integers (some rb) none = raise
push_integers (some rb) (some sb) = within max_ecdsa_sig_int_bytes rb >>= λ r_fits.
    within max_ecdsa_sig_int_bytes sb >>= λ s_fits. ret (string rb ∷ string sb ∷ [])

module _ {ℓ} {N : Type ℓ} (openssl : Ecdsa N) where
  -- `Lparse_ecdsa_signature`
  pub parse_ecdsa_signature : List ℕ → ℤ → Outcome (List Value)
  parse_ecdsa_signature sig_der wanted =
      let sig_int_bytes = size_of_ℤ wanted in
      if ltb max_ecdsa_sig_int_bytes sig_int_bytes then raise else elim (openssl.d2i sig_der) [
        | none ↦ ret (nil ∷ [])
        | some (r, s) ↦
            push_integers (openssl.bn2binpad r sig_int_bytes) (openssl.bn2binpad s sig_int_bytes)
      ]

  -- `Lbuild_ecdsa_signature`, where no allocation fails.
  pub build_ecdsa_signature : List ℕ → List ℕ → Outcome Value
  build_ecdsa_signature rbin sbin =
      let r = openssl.bin2bn rbin (int_of_size (length rbin)) in
      let s = openssl.bin2bn sbin (int_of_size (length sbin)) in
      let room = (length rbin + 1 + (length sbin + 1) + 7) % 2 ^ 64 in
      let bytes = openssl.i2d r s in within room bytes >>= λ fits. ret (string bytes)
