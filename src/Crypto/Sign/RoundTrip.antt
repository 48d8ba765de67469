-- ===== src/Crypto/Sign/RoundTrip.antt =====
-- What `base_evp_verify` tells of a signature that `base_evp_sign` made.
use prosody.Base.{
  ℕ, ◌≡◌, refl, ap, subst, ◌∙◌, Bool, true, false, List, Option, none, some, Option-cases,
  Bool-cases, inl, inr, ltb, ◌==◌, arith,
}
use prosody.Base.Int.{pos}
use prosody.Base.Lua.{Value, boolean, string, Outcome, ret, raise, fault}
use prosody.Crypto.Evp.{Evp, Digest, Key, nid_rsassa_pss, pkey_from_arg, with_pkey}
use prosody.Crypto.Evp.Types.{pkey_from_arg-public}
use prosody.Crypto.Sign.{
  Algorithm, key_type_of, digest_of, wanted_type, set_padding, sign_into, sign_on, sign_with,
  base_evp_sign, verified, verify_with, base_evp_verify, sign, verify,
}

-- What a context is set up for: a digest, PSS padding, and a key.
abbrev pub Setting : Type 0
Setting = Option Digest × Bool × Option ℕ

-- OpenSSL keeps the setting of a context from its start on; what it signs is accepted under the same
-- setting with the public key, and it verifies what is accepted.
pub record Scheme {ℓ} {K : Type ℓ} (evp : Evp K) (setting : K → ℕ → Setting)
    (Accepts : Setting → List ℕ → List ℕ → Type 0) (public_of : Option ℕ → Option ℕ) : Type ℓ where
  pub sign_starts :
      (k : K) (ctx : ℕ) (digest : Option Digest) (pkey : Option ℕ)
      → (evp.sign_init k ctx digest pkey).0 ≡ pos 1
      → setting (evp.sign_init k ctx digest pkey).1 ctx ≡ (digest, false, pkey)
  pub verify_starts :
      (k : K) (ctx : ℕ) (digest : Option Digest) (pkey : Option ℕ)
      → (evp.verify_init k (some ctx) digest pkey).0 ≡ pos 1
      → setting (evp.verify_init k (some ctx) digest pkey).1 ctx ≡ (digest, false, pkey)
  pub pads :
      (k : K) (ctx : ℕ)
      → setting (evp.set_pss_padding k (some ctx)) ctx
        ≡ ((setting k ctx).0, true, (setting k ctx).2)
  pub measures :
      (k : K) (ctx : ℕ) (msg : List ℕ) → setting (evp.sign_length k ctx msg).2 ctx ≡ setting k ctx
  pub signs :
      (k : K) (ctx : ℕ) (msg : List ℕ)
      → (evp.digest_sign k ctx msg).0 ≡ pos 1
      → Accepts (setting k ctx) msg (evp.digest_sign k ctx msg).1
  pub verifies :
      (k : K) (ctx : ℕ) (digest : Option Digest) (pss : Bool) (pkey : Option ℕ) (msg sig : List ℕ)
      → setting k ctx ≡ (digest, pss, public_of pkey)
      → Accepts (digest, pss, pkey) msg sig
      → (evp.digest_verify k (some ctx) sig msg).0 ≡ pos 1

module _ {ℓ} {K : Type ℓ} (evp : Evp K) (setting : K → ℕ → Setting)
    (Accepts : Setting → List ℕ → List ℕ → Type 0) (public_of : Option ℕ → Option ℕ)
    (scheme : Scheme evp setting Accepts public_of) where
  padded-setting :
      (key_type : ℕ) (k : K) (ctx : ℕ) (digest : Option Digest) (pkey : Option ℕ)
      → setting k ctx ≡ (digest, false, pkey)
      → setting (set_padding evp key_type k (some ctx)) ctx
        ≡ (digest, key_type == nid_rsassa_pss, pkey)
  unfolding set_padding
  padded-setting key_type k ctx digest pkey e = elim (Bool-cases (key_type == nid_rsassa_pss)) [
    | inl pss ↦ rw pss (scheme.pads k ctx ∙ ap (λ s. (s.0, true, s.2)) e)
    | inr plain ↦ rw plain e
  ]

  sign_into-Accepts :
      (buffer_size : ℕ) (k : K) (ctx sig_len : ℕ) (msg sig : List ℕ)
      → (sign_into evp buffer_size k ctx sig_len msg).0 ≡ ret (string sig)
      → Accepts (setting k ctx) msg sig
  unfolding sign_into
  sign_into-Accepts buffer_size k ctx sig_len msg sig e =
      let done = evp.digest_sign k ctx msg in
      let same : (ltb buffer_size sig_len ≡ false) × (done.0 ≡ pos 1) × (done.1 ≡ sig) =
        ground (arith, e) in
      subst (λ s. Accepts (setting k ctx) msg s) same.2 (scheme.signs k ctx msg same.1)

  sign_on-Accepts :
      (buffer_size key_type : ℕ) (digest : Option Digest) (k : K) (ctx : ℕ) (pkey : Option ℕ)
      (msg sig : List ℕ)
      → (sign_on evp buffer_size key_type digest k ctx pkey msg).0 ≡ ret (string sig)
      → Accepts (digest, key_type == nid_rsassa_pss, pkey) msg sig
  unfolding sign_on
  sign_on-Accepts buffer_size key_type digest k ctx pkey msg sig e =
      let begun = evp.sign_init k ctx digest pkey in
      let padded = set_padding evp key_type begun.1 (some ctx) in
      let measured = evp.sign_length padded ctx msg in
      let last = sign_into evp buffer_size measured.2 ctx measured.1 msg in
      let went : (begun.0 ≡ pos 1) × (last.0 ≡ ret (string sig)) = ground (arith, e) in
      let set_up =
        scheme.measures padded ctx msg
        ∙ padded-setting key_type begun.1 ctx digest pkey
            (scheme.sign_starts k ctx digest pkey went.0) in
      subst (λ s. Accepts s msg sig) set_up
        (sign_into-Accepts buffer_size measured.2 ctx measured.1 msg sig went.1)

  sign_with-Accepts :
      (buffer_size key_type : ℕ) (digest : Option Digest) (k : K) (pkey : Option ℕ)
      (msg sig : List ℕ)
      → (sign_with evp buffer_size key_type digest k pkey msg).0 ≡ ret (string sig)
      → Accepts (digest, key_type == nid_rsassa_pss, pkey) msg sig
  unfolding sign_with
  sign_with-Accepts buffer_size key_type digest k pkey msg sig e =
      let made = evp.md_ctx_new k in
      let on : Option ℕ → Outcome Value × K = λ m. elim m [
        | none ↦ (raise, made.1)
        | some ctx ↦ sign_on evp buffer_size key_type digest made.1 ctx pkey msg
      ] in
      elim (Option-cases made.0) [
        | inl h ↦
            let refused = subst (λ m. (on m).0 ≡ ret (string sig)) h e in
            absurd (ground (arith, refused))
        | inr (ctx, h) ↦
            sign_on-Accepts buffer_size key_type digest made.1 ctx pkey msg sig
              (subst (λ m. (on m).0 ≡ ret (string sig)) h e)
      ]

  verify_with-true :
      (key_type : ℕ) (digest : Option Digest) (k : K) (ctx : ℕ) (pkey : Option ℕ) (msg sig : List ℕ)
      → (evp.md_ctx_new k).0 ≡ some ctx
      → (evp.verify_init (evp.md_ctx_new k).1 (some ctx) digest (public_of pkey)).0 ≡ pos 1
      → Accepts (digest, key_type == nid_rsassa_pss, pkey) msg sig
      → (verify_with evp key_type digest k (public_of pkey) msg sig).0 ≡ ret (boolean true)
  unfolding verify_with verified
  verify_with-true key_type digest k ctx pkey msg sig made begun accepts =
      let start = evp.verify_init (evp.md_ctx_new k).1 (some ctx) digest (public_of pkey) in
      let set_up =
        padded-setting key_type start.1 ctx digest (public_of pkey)
          (scheme.verify_starts _ ctx digest (public_of pkey) begun) in
      let one =
        scheme.verifies _ ctx digest (key_type == nid_rsassa_pss) pkey msg sig set_up accepts in
      rw (made, begun, one) refl

with_pkey-ret {ℓ} :
    {K : Type ℓ} (o : Outcome (Option ℕ)) (k : K) (f : Option ℕ → Outcome Value × K) (v : Value)
    → (with_pkey o k f).0 ≡ ret v
    → (pkey : Option ℕ) × (o ≡ ret pkey) × ((f pkey).0 ≡ ret v)
with_pkey-ret (ret pkey) k f v e = (pkey, refl, e)
with_pkey-ret raise k f v e = absurd (ground (arith, e))
with_pkey-ret fault k f v e = absurd (ground (arith, e))

-- Over an OpenSSL that keeps to its settings: what `sign` gave of a message and a key, `verify` finds
-- true for that message and each key of the same type that holds the public part, for every
-- algorithm, where OpenSSL has a context and starts with that key.
pub verify-sign {ℓ} :
    {K : Type ℓ} (evp : Evp K) (setting : K → ℕ → Setting)
    (Accepts : Setting → List ℕ → List ℕ → Type 0) (public_of : Option ℕ → Option ℕ)
    → Scheme evp setting Accepts public_of
    → (buffer_size : ℕ) (algorithm : Algorithm) (k : K) (key : Key) (msg sig : List ℕ)
    → (sign evp buffer_size algorithm k key msg).0 ≡ ret (string sig)
    → (k' : K) (other : Key) (ctx : ℕ) → other.key_type ≡ key.key_type
    → other.pkey ≡ public_of key.pkey
    → (evp.md_ctx_new k').0 ≡ some ctx
    → (evp.verify_init (evp.md_ctx_new k').1 (some ctx) (digest_of algorithm) other.pkey).0 ≡ pos 1
    → (verify evp algorithm k' other msg sig).0 ≡ ret (boolean true)
unfolding sign verify base_evp_sign base_evp_verify
verify-sign evp setting Accepts public_of scheme buffer_size algorithm k key msg sig e k' other ctx
      same holds made begun =
    let signed =
      with_pkey-ret (pkey_from_arg key (wanted_type (key_type_of algorithm)) true) k _ (string sig)
        e in
    let taken =
      pkey_from_arg-public key other (wanted_type (key_type_of algorithm)) signed.0 signed.1 same in
    let accepts =
      sign_with-Accepts evp setting Accepts public_of scheme buffer_size (key_type_of algorithm)
        (digest_of algorithm) k signed.0 msg sig signed.2 in
    let public : other.pkey ≡ public_of signed.0 = holds ∙ ap public_of taken.0 in
    let begun' =
      subst
        (λ p. (evp.verify_init (evp.md_ctx_new k').1 (some ctx) (digest_of algorithm) p).0 ≡ pos 1)
        public begun in
    rw (taken.1, public)
      (verify_with-true evp setting Accepts public_of scheme (key_type_of algorithm)
        (digest_of algorithm) k' ctx signed.0 msg sig made begun' accepts)
