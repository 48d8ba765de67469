-- ===== src/Crypto/Sign.antt =====
-- util-src/crypto.c: signatures. `Algorithm` names the pairs of functions that IMPL_SIGN_VERIFY and
-- the two functions for Ed25519 define.
pub mod Curves
pub mod RoundTrip
mod Tests
use prosody.Base.{ℕ, Bool, true, false, not, List, Option, none, some, ltb, ◌==◌, if◌then◌else◌}
use prosody.Base.Int.{ℤ, pos, eq_ℤ}
use prosody.Base.Lua.{Value, nil, boolean, string, Outcome, ret, raise, fault}
use prosody.Crypto.Evp.{
  Evp, Digest, Key, nid_ed25519, nid_ec_public_key, nid_rsa_encryption, nid_rsassa_pss,
  pkey_from_arg, with_pkey,
}

pub data Algorithm : Type 0 where
  ed25519 : Algorithm
  ecdsa rsassa_pkcs1 rsassa_pss : Digest → Algorithm

-- The arguments `key_type` and `digest_type`.
abbrev pub key_type_of : Algorithm → ℕ
key_type_of ed25519 = nid_ed25519
key_type_of (ecdsa digest) = nid_ec_public_key
key_type_of (rsassa_pkcs1 digest) = nid_rsa_encryption
key_type_of (rsassa_pss digest) = nid_rsassa_pss

abbrev pub digest_of : Algorithm → Option Digest
digest_of ed25519 = none
digest_of (ecdsa digest) = some digest
digest_of (rsassa_pkcs1 digest) = some digest
digest_of (rsassa_pss digest) = some digest

-- `(key_type!=NID_rsassaPss)?key_type:NID_rsaEncryption`
abbrev pub wanted_type : ℕ → ℕ
wanted_type key_type = if not (key_type == nid_rsassa_pss) then key_type else nid_rsa_encryption

abbrev pub is_one : ℤ → Bool
is_one returned = eq_ℤ returned (pos 1)

module _ {ℓ} {K : Type ℓ} (evp : Evp K) where
  -- `if(key_type == NID_rsassaPss)`
  pub set_padding : ℕ → K → Option ℕ → K
  set_padding key_type k md_ctx =
      if key_type == nid_rsassa_pss then evp.set_pss_padding k md_ctx else k

  -- The end of `base_evp_sign`, in a buffer of LUAL_BUFFERSIZE.
  pub sign_into : ℕ → K → ℕ → ℕ → List ℕ → Outcome Value × K
  sign_into buffer_size k md_ctx sig_len msg =
      let done = evp.digest_sign k md_ctx msg in
      if ltb buffer_size sig_len
      then (fault, k)
      else if is_one done.0
      then (ret (string done.1), done.2)
      else (ret nil, done.2)

  -- `base_evp_sign` from EVP_DigestSignInit on.
  pub sign_on : ℕ → ℕ → Option Digest → K → ℕ → Option ℕ → List ℕ → Outcome Value × K
  sign_on buffer_size key_type digest k md_ctx pkey msg =
      let begun = evp.sign_init k md_ctx digest pkey in
      let padded = set_padding key_type begun.1 (some md_ctx) in
      let measured = evp.sign_length padded md_ctx msg in
      if not (is_one begun.0)
      then (ret nil, begun.1)
      else if not (is_one measured.0)
      then (ret nil, measured.2)
      else sign_into buffer_size measured.2 md_ctx measured.1 msg

  -- `base_evp_sign` from the managed context on.
  pub sign_with : ℕ → ℕ → Option Digest → K → Option ℕ → List ℕ → Outcome Value × K
  sign_with buffer_size key_type digest k pkey msg =
      let made = evp.md_ctx_new k in
      elim made.0 [
        | none ↦ (raise, made.1)
        | some md_ctx ↦ sign_on buffer_size key_type digest made.1 md_ctx pkey msg
      ]

  pub base_evp_sign : ℕ → ℕ → Option Digest → K → Key → List ℕ → Outcome Value × K
  base_evp_sign buffer_size key_type digest k key msg =
      with_pkey (pkey_from_arg key (wanted_type key_type) true) k
        λ pkey. sign_with buffer_size key_type digest k pkey msg

  -- The part of `base_evp_verify` behind the first test: the result of EVP_DigestVerify as a value.
  pub verified : ℤ → Value
  verified result =
      if eq_ℤ result (pos 0)
      then boolean false
      else if not (is_one result)
      then nil
      else boolean true

  pub verify_with : ℕ → Option Digest → K → Option ℕ → List ℕ → List ℕ → Outcome Value × K
  verify_with key_type digest k pkey msg sig =
      let md_ctx = evp.md_ctx_new k in
      let begun = evp.verify_init md_ctx.1 md_ctx.0 digest pkey in
      let padded = set_padding key_type begun.1 md_ctx.0 in
      let checked = evp.digest_verify padded md_ctx.0 sig msg in
      if not (is_one begun.0)
      then (ret nil, evp.md_ctx_free begun.1 md_ctx.0)
      else (ret (verified checked.0), evp.md_ctx_free checked.1 md_ctx.0)

  pub base_evp_verify : ℕ → Option Digest → K → Key → List ℕ → List ℕ → Outcome Value × K
  base_evp_verify key_type digest k key msg sig =
      with_pkey (pkey_from_arg key (wanted_type key_type) false) k
        λ pkey. verify_with key_type digest k pkey msg sig

  -- The functions of an algorithm.
  pub sign : ℕ → Algorithm → K → Key → List ℕ → Outcome Value × K
  sign buffer_size algorithm =
      base_evp_sign buffer_size (key_type_of algorithm) (digest_of algorithm)

  pub verify : Algorithm → K → Key → List ℕ → List ℕ → Outcome Value × K
  verify algorithm = base_evp_verify (key_type_of algorithm) (digest_of algorithm)
