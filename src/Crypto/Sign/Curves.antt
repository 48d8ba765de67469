-- ===== src/Crypto/Sign/Curves.antt =====
-- Keys from `Lgenerate_p256_keypair` and the functions for ECDSA.
use prosody.Base.{ℕ, ◌≡◌, ◌≢◌, refl, true, false, List, some, arith}
use prosody.Base.Lua.{raise}
use prosody.Crypto.Evp.{Evp, Digest, Key, nid_ec_public_key}
use prosody.Crypto.Evp.Types.{pkey_from_arg-refused}
use prosody.Crypto.Keys.{generate_p256_keypair}
use prosody.Crypto.Keys.Made.{generate_p256-type}
use prosody.Crypto.Sign.{ecdsa, base_evp_sign, base_evp_verify, sign, verify}

-- `generate_p256_keypair` gives a key that `sign` and `verify` of ECDSA refuse, with each digest.
pub p256-refused {ℓ} :
    {K : Type ℓ} (evp : Evp K) (k : K) (key : Key)
    → (generate_p256_keypair evp k).0 ≡ some key
    → (buffer_size : ℕ) (digest : Digest) (k' : K) (msg sig : List ℕ)
    → (sign evp buffer_size (ecdsa digest) k' key msg ≡ (raise, k'))
      × (verify evp (ecdsa digest) k' key msg sig ≡ (raise, k'))
unfolding sign verify base_evp_sign base_evp_verify
p256-refused evp k key e buffer_size digest k' msg sig =
    let type = generate_p256-type evp k key e in
    let other : key.key_type ≢ nid_ec_public_key = λ same. absurd (omega (arith, type, same)) in
    let signs = pkey_from_arg-refused key nid_ec_public_key true (λ e. omega (arith, e)) other in
    let verifies =
      pkey_from_arg-refused key nid_ec_public_key false (λ e. omega (arith, e)) other in
    (rw signs refl, rw verifies refl)
