-- ===== src/Crypto/Evp.antt =====
-- util-src/crypto.c: the functions of OpenSSL that work on keys, as parameters, and the userdata of a
-- key with `pkey_from_arg` and `push_pkey`.
pub mod Types
use prosody.Base.{ℕ, Bool, ◌&&◌, not, List, Option, ◌==◌, if◌then◌else◌}
use prosody.Base.Int.{ℤ}
use prosody.Base.Lua.{Outcome, ret, raise, fault}

-- EVP_sha256, EVP_sha384 and EVP_sha512.
pub data Digest : Type 0 where
  sha256 sha384 sha512 : Digest

-- `K` is OpenSSL's state. An object of OpenSSL is a number, and `none` is NULL. A `ℤ` is what a call
-- returns, a `Bool` whether that is not 0; a list of bytes is what it writes.
pub record Evp {ℓ} (K : Type ℓ) : Type ℓ where
  pub md_ctx_new : K → Option ℕ × K
  pub md_ctx_free : K → Option ℕ → K
  pub sign_init : K → ℕ → Option Digest → Option ℕ → ℤ × K
  pub sign_length : K → ℕ → List ℕ → ℤ × ℕ × K
  pub digest_sign : K → ℕ → List ℕ → ℤ × List ℕ × K
  pub verify_init : K → Option ℕ → Option Digest → Option ℕ → ℤ × K
  pub digest_verify : K → Option ℕ → List ℕ → List ℕ → ℤ × K
  pub set_pss_padding : K → Option ℕ → K
  pub pkey_id : Option ℕ → ℕ
  pub nid2sn : ℕ → List ℕ
  pub pkey_free : K → Option ℕ → K
  pub todata : K → Option ℕ → Option (List (List ℕ × List ℕ)) × K
  pub param_free : K → K
  pub bio_new : K → Option ℕ × K
  pub bio_write : K → ℕ → List ℕ → ℤ → K
  pub bio_data : K → ℕ → List ℕ
  pub write_public : K → ℕ → Option ℕ → Bool × K
  pub write_private : K → ℕ → Option ℕ → Bool × K
  pub read_public : K → ℕ → Option ℕ × K
  pub read_private : K → ℕ → Option ℕ × K
  pub ctx_new : K → Option ℕ → Option ℕ × K
  pub ctx_new_id : K → ℕ → Option ℕ × K
  pub ctx_new_ec : K → Option ℕ × K
  pub ctx_free : K → Option ℕ → K
  pub keygen_init : K → Option ℕ → ℤ × K
  pub set_curve : K → Option ℕ → ℕ → ℤ × K
  pub keygen : K → Option ℕ → ℤ × Option ℕ × K
  pub derive_init : K → ℕ → ℤ × K
  pub set_peer : K → ℕ → Option ℕ → ℤ × K
  pub derive_length : K → ℕ → ℤ × ℕ × K
  pub grow : K → ℕ → ℕ → Bool × K
  pub derive : K → ℕ → ℤ × List ℕ × K
  pub bio_reset : K → ℕ → K
  pub bld_new : K → Option ℕ × K
  pub push_group : K → ℕ → List ℕ → Bool × K
  pub push_pub : K → ℕ → List ℕ → Bool × K
  pub to_param : K → ℕ → Option ℕ × K
  pub params_free : K → ℕ → K
  pub bld_free : K → ℕ → K
  pub fromdata_init : K → ℕ → Bool × K
  pub fromdata : K → ℕ → ℕ → ℤ × Option ℕ × K

-- NID_ED25519 (and EVP_PKEY_ED25519), NID_X9_62_prime256v1, NID_X9_62_id_ecPublicKey (and
-- EVP_PKEY_EC), NID_rsaEncryption and NID_rsassaPss.
abbrev pub nid_ed25519 : ℕ
nid_ed25519 = 1087

abbrev pub nid_prime256v1 : ℕ
nid_prime256v1 = 415

abbrev pub nid_ec_public_key : ℕ
nid_ec_public_key = 408

abbrev pub nid_rsa_encryption : ℕ
nid_rsa_encryption = 6

abbrev pub nid_rsassa_pss : ℕ
nid_rsassa_pss = 912

-- The userdata of a key, with the fields of its user value; a `type` that is not set reads as 0.
pub record Key : Type 0 where
  pub pkey : Option ℕ
  pub key_type : ℕ
  pub is_private : Bool

-- `pkey_from_arg` on a userdata with the metatable of keys.
unfoldable pub pkey_from_arg : Key → ℕ → Bool → Outcome (Option ℕ)
pkey_from_arg key type require_private =
    if not (type == 0) && not (key.key_type == type)
    then raise
    else if require_private && not key.is_private
    then raise
    else ret key.pkey

abbrev pub push_pkey : Option ℕ → ℕ → Bool → Key
push_pkey pkey type privkey = record { pkey = pkey; key_type = type; is_private = privkey }

-- What follows `pkey_from_arg` in a function that keeps OpenSSL's state.
abbrev pub with_pkey {ℓ κ} :
    {K : Type ℓ} {A : Type κ} → Outcome (Option ℕ) → K → (Option ℕ → Outcome A × K) → Outcome A × K
with_pkey (ret pkey) k use_pkey = use_pkey pkey
with_pkey raise k use_pkey = (raise, k)
with_pkey fault k use_pkey = (fault, k)
