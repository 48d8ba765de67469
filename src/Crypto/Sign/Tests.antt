-- ===== src/Crypto/Sign/Tests.antt =====
-- Signatures over the small OpenSSL, and the theorems at it.
use prosody.Base.{◌≡◌, refl, ap, subst, sym, Bool, true, false, [], ◌∷◌, some}
use prosody.Base.Int.{ℤ, pos}
use prosody.Base.Lua.{boolean, string, eq_bytes, eq_bytes_refl, ret, raise}
use prosody.Crypto.Small.{signature, begin, small}
use prosody.Crypto.Evp.{sha256, Key, nid_prime256v1, nid_rsa_encryption, push_pkey, pkey_from_arg}
use prosody.Crypto.Keys.{free_ctx, generate_p256_keypair}
use prosody.Crypto.Sign.{
  ecdsa, rsassa_pss, set_padding, sign_into, sign_on, sign_with, base_evp_sign, sign, verify,
}
use prosody.Crypto.Sign.Curves.{p256-refused}
use prosody.Crypto.Sign.RoundTrip.{Scheme, verify-sign}

-- A key of each kind.
abbrev rsa_key : Key
rsa_key = push_pkey (some 7) nid_rsa_encryption true

abbrev p256_key : Key
p256_key = push_pkey (some 9) nid_prime256v1 true

makes_p256 : (generate_p256_keypair small begin).0 ≡ some p256_key
unfolding generate_p256_keypair free_ctx
makes_p256 = refl

p256-refused_example :
    (sign small 1024 (ecdsa sha256) begin p256_key (1 ∷ []) ≡ (raise, begin))
    × (verify small (ecdsa sha256) begin p256_key (1 ∷ []) (2 ∷ []) ≡ (raise, begin))
p256-refused_example =
    p256-refused small begin p256_key makes_p256 1024 sha256 begin (1 ∷ []) (2 ∷ [])

small-Scheme : Scheme small (λ k ctx. k.setting) (λ s msg sig. sig ≡ signature s msg) (λ pkey. pkey)
small-Scheme = record {
  sign_starts = λ k ctx digest pkey e. refl;
  verify_starts = λ k ctx digest pkey e. refl;
  pads = λ k ctx. refl;
  measures = λ k ctx msg. refl;
  signs = λ k ctx msg e. refl;
  verifies = λ k ctx digest pss pkey msg sig set e.
      (let same : eq_bytes sig (signature k.setting msg) ≡ true =
          subst (λ s. eq_bytes sig (signature s msg) ≡ true) (sym set)
            (subst (λ t. eq_bytes sig t ≡ true) e (eq_bytes_refl sig)) in
        let told : Bool → ℤ = λ b. elim b [ false ↦ pos 0 | true ↦ pos 1 ] in ap told same);
}

signs_small :
    (sign small 1024 (rsassa_pss sha256) begin rsa_key (4 ∷ [])).0 ≡ ret (string (1 ∷ 7 ∷ 4 ∷ []))
unfolding sign base_evp_sign sign_with sign_on sign_into set_padding pkey_from_arg
signs_small = refl

verify-sign_example :
    (verify small (rsassa_pss sha256) begin rsa_key (4 ∷ []) (1 ∷ 7 ∷ 4 ∷ [])).0
    ≡ ret (boolean true)
verify-sign_example =
    verify-sign small (λ k ctx. k.setting) (λ s msg sig. sig ≡ signature s msg) (λ pkey. pkey)
      small-Scheme 1024 (rsassa_pss sha256) begin rsa_key (4 ∷ []) (1 ∷ 7 ∷ 4 ∷ []) signs_small
      begin rsa_key 1 refl refl refl refl
