-- ===== src/Crypto/Keys.antt =====
-- util-src/crypto.c: the functions that make, read and write keys, and `derive`.
pub mod Made
pub mod Pem
mod Tests
use prosody.Base.{
  ℕ, Bool, true, false, not, List, [], ◌∷◌, Option, none, some, length, ltb, ◌==◌, if◌then◌else◌,
  codes,
}
use prosody.Base.Int.{ℤ, pos, leb_ℤ}
use prosody.Base.Word.{int_of_size}
use prosody.Base.Lua.{eq_bytes, c_string, Value, nil, string, Outcome, ret, raise, ◌>>=◌}
use prosody.Crypto.Evp.{
  Evp, Key, nid_ed25519, nid_prime256v1, nid_ec_public_key, pkey_from_arg, push_pkey, with_pkey,
}

-- `<= 0`
abbrev pub failed : ℤ → Bool
failed returned = leb_ℤ returned (pos 0)

module _ {ℓ} {K : Type ℓ} (evp : Evp K) where
  pub get_type : Key → Outcome Value
  get_type key =
      pkey_from_arg key 0 false >>= λ pkey. ret (string (c_string (evp.nid2sn (evp.pkey_id pkey))))

  pub pkey_finalizer : K → Key → Outcome K
  pkey_finalizer k key = pkey_from_arg key 0 false >>= λ pkey. ret (evp.pkey_free k pkey)

  -- `Lgenerate_ed25519_keypair`, which tests no result.
  pub generate_ed25519_keypair : K → Key × K
  generate_ed25519_keypair k =
      let pctx = evp.ctx_new_id k nid_ed25519 in
      let begun = evp.keygen_init pctx.1 pctx.0 in
      let made = evp.keygen begun.1 pctx.0 in
      (push_pkey made.1 nid_ed25519 true, evp.ctx_free made.2 pctx.0)

  -- `if (ctx) EVP_PKEY_CTX_free(ctx)`
  unfoldable pub free_ctx : K → Option ℕ → K
  free_ctx k none = k
  free_ctx k (some ctx) = evp.ctx_free k (some ctx)

  -- `Lgenerate_p256_keypair`; nil is `none`.
  unfoldable pub generate_p256_keypair : K → Option Key × K
  generate_p256_keypair k =
      let pctx = evp.ctx_new_id k nid_ec_public_key in
      let begun = evp.keygen_init pctx.1 pctx.0 in
      let curved = evp.set_curve begun.1 pctx.0 nid_prime256v1 in
      let made = evp.keygen curved.1 pctx.0 in
      if failed begun.0
      then (none, free_ctx begun.1 pctx.0)
      else if failed curved.0
      then (none, free_ctx curved.1 pctx.0)
      else if failed made.0
      then (none, free_ctx made.2 pctx.0)
      else (some (push_pkey made.1 nid_prime256v1 true), evp.ctx_free made.2 pctx.0)

  -- The end of both imports of a PEM text.
  pub imported : Bool → Option ℕ × K → Option Key × K
  imported privkey read = elim read.0 [
    | none ↦ (none, read.1)
    | some pkey ↦ (some (push_pkey (some pkey) (evp.pkey_id (some pkey)) privkey), read.1)
  ]

  -- The managed allocator raises an error where it gets NULL.
  pub with_bio {κ} : {A : Type κ} → K → (ℕ → K → A × K) → Outcome A × K
  with_bio k use_bio =
      let made = evp.bio_new k in
      elim made.0 [
        | none ↦ (raise, made.1)
        | some bio ↦ (let done = use_bio bio made.1 in (ret done.0, done.1))
      ]

  -- `Limport_private_pem` and `Limport_public_pem`
  pub import_private_pem : K → List ℕ → Outcome (Option Key) × K
  import_private_pem k pem = with_bio k λ bio after.
      imported true (evp.read_private (evp.bio_write after bio pem (int_of_size (length pem))) bio)

  pub import_public_pem : K → List ℕ → Outcome (Option Key) × K
  import_public_pem k pem = with_bio k λ bio after.
      imported false (evp.read_public (evp.bio_write after bio pem (int_of_size (length pem))) bio)

  -- What both functions that write a PEM text push.
  pub written : ℕ → Bool × K → Value × K
  written bio done =
      let bytes = evp.bio_data done.1 bio in
      if done.0
      then (if ltb 0 (length bytes) then (string bytes, done.1) else (nil, done.1))
      else (nil, done.1)

  -- `Lpkey_meth_public_pem` and `Lpkey_meth_private_pem`
  pub public_pem : K → Key → Outcome Value × K
  public_pem k key =
      with_pkey (pkey_from_arg key 0 false) k
        λ pkey. with_bio k λ bio after. written bio (evp.write_public after bio pkey)

  pub private_pem : K → Key → Outcome Value × K
  private_pem k key =
      with_pkey (pkey_from_arg key 0 true) k
        λ pkey. with_bio k λ bio after. written bio (evp.write_private after bio pkey)

  -- The loop of `Lpkey_meth_public_raw`.
  pub find_pub : List (List ℕ × List ℕ) → Value
  find_pub [] = nil
  find_pub ((name, bytes) ∷ items) =
      let rest = find_pub items in if eq_bytes (codes "pub") name then string bytes else rest

  -- `Lpkey_meth_public_raw`
  pub public_raw : K → Key → Outcome Value × K
  public_raw k key = with_pkey (pkey_from_arg key 0 false) k λ pkey.
      (let params = evp.todata k pkey in
        elim params.0 [
          | none ↦ (ret nil, params.1)
          | some items ↦ (ret (find_pub items), evp.param_free params.1)
        ])
