-- ===== src/Crypto/Keys/Tests.antt =====
-- Keys over the small OpenSSL.
use prosody.Base.{ℕ, List, ap, arith, ◌≡◌, refl, true, false, [], ◌∷◌, some}
use prosody.Base.Lua.{nil, string, ret}
use prosody.Crypto.Small.{begin, small, first}
use prosody.Crypto.Evp.{Key, nid_prime256v1, nid_ed25519, pkey_from_arg, push_pkey}
use prosody.Crypto.Keys.{
  private_pem, generate_ed25519_keypair, imported, with_bio, import_private_pem, written,
  public_pem,
}
use prosody.Crypto.Keys.Pem.{Pem, import-private_pem}

made : (generate_ed25519_keypair small begin).0 ≡ push_pkey (some 9) nid_ed25519 true
unfolding generate_ed25519_keypair
made = refl

-- The type of a key that is read is what EVP_PKEY_id gives.
read : (import_private_pem small begin (45 ∷ [])).0 ≡ ret (some (push_pkey (some 45) 408 true))
unfolding import_private_pem with_bio imported
read = refl

nothing_written : (public_pem small begin (push_pkey (some 5) 408 false)).0 ≡ ret nil
unfolding public_pem with_bio written pkey_from_arg
nothing_written = refl

small-Pem : Pem small (λ k bio. k.content) (λ pkey. pkey ∷ []) (λ pkey. pkey)
small-Pem = record {
  begins_empty = λ k bio e. refl;
  shows = λ k bio. refl;
  writes = λ k bio pkey e. (refl, refl);
  takes = λ k bio bytes e. refl;
  reads = λ k bio pkey e. (pkey, ap first e, refl);
  some_text = λ pkey. omega arith;
  short_text = λ pkey. omega arith;
}

-- A key of the type that is given to new keys on P-256.
abbrev p256_key : Key
p256_key = push_pkey (some 9) nid_prime256v1 true

import-private_pem_example :
    (bytes : List ℕ) × ((private_pem small begin p256_key).0 ≡ ret (string bytes))
    × ((copy : ℕ) × ((import_private_pem small begin bytes).0
          ≡ ret (some (push_pkey (some copy) 408 true)))
        × (copy ≡ 9))
import-private_pem_example =
    import-private_pem small (λ k bio. k.content) (λ pkey. pkey ∷ []) (λ pkey. pkey) small-Pem begin
      begin p256_key 9 2 2 refl refl refl refl
