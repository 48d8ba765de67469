-- ===== src/Crypto/Keys/Made.antt =====
-- The keys that the program makes and reads.
use prosody.Base.{◌≡◌, Bool, true, false, Option, none, some, if◌then◌else◌, arith}
use prosody.Crypto.Evp.{Evp, Key, nid_ec_public_key, nid_prime256v1}
use prosody.Crypto.Keys.{failed, generate_p256_keypair}

-- A branch that gives nil gave no key.
if_some {ℓ} :
    {K : Type ℓ} (b : Bool) (k : K) (rest : Option Key × K) (key : Key)
    → (if b then (none, k) else rest).0 ≡ some key
    → rest.0 ≡ some key
if_some true k rest key e = absurd (ground (arith, e))
if_some false k rest key e = e

-- The type that `generate_p256_keypair` stores is that of the curve.
pub generate_p256-type {ℓ} :
    {K : Type ℓ} (evp : Evp K) (k : K) (key : Key)
    → (generate_p256_keypair evp k).0 ≡ some key
    → key.key_type ≡ nid_prime256v1
unfolding generate_p256_keypair
generate_p256-type evp k key e =
    let pctx = evp.ctx_new_id k nid_ec_public_key in
    let begun = evp.keygen_init pctx.1 pctx.0 in
    let curved = evp.set_curve begun.1 pctx.0 nid_prime256v1 in
    let made = evp.keygen curved.1 pctx.0 in
    let last =
      if_some (failed made.0) _ _ key
        (if_some (failed curved.0) _ _ key (if_some (failed begun.0) _ _ key e)) in
    ground (arith, last)
