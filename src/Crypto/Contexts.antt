-- ===== src/Crypto/Contexts.antt =====
-- util-src/crypto.c: the functions with contexts of their own, `Lpkey_meth_derive` and
-- `Limport_public_ec_raw`.
pub mod Held
pub mod Imported
mod Tests
use prosody.Base.{ℕ, Bool, true, false, not, List, Option, none, some, if◌then◌else◌}
use prosody.Base.Int.{ℤ}
use prosody.Base.Lua.{c_string, Value, string, Outcome, ret, raise}
use prosody.Crypto.Evp.{Evp, Key, pkey_from_arg, push_pkey, with_pkey}
use prosody.Crypto.Keys.{failed, free_ctx}

module _ {ℓ} {K : Type ℓ} (evp : Evp K) where
  -- `sslerr:` of `Lpkey_meth_derive`.
  pub derive_fails : K → ℕ → Option ℕ → Outcome Value × K
  derive_fails k bio ctx = (raise, evp.bio_reset (free_ctx evp k ctx) bio)

  -- `Lpkey_meth_derive` from the first call on a context on.
  pub derive_on : K → ℕ → ℕ → Option ℕ → Outcome Value × K
  derive_on k bio ctx peer =
      let begun = evp.derive_init k ctx in
      let with_peer = evp.set_peer begun.1 ctx peer in
      let measured = evp.derive_length with_peer.1 ctx in
      let grown = evp.grow measured.2 bio measured.1 in
      let derived = evp.derive grown.1 ctx in
      if failed begun.0
      then derive_fails begun.1 bio (some ctx)
      else if failed with_peer.0
      then derive_fails with_peer.1 bio (some ctx)
      else if failed measured.0
      then derive_fails measured.2 bio (some ctx)
      else if not grown.0
      then derive_fails grown.1 bio (some ctx)
      else if failed derived.0
      then derive_fails derived.2 bio (some ctx)
      else (ret (string derived.1), evp.bio_reset (evp.ctx_free derived.2 (some ctx)) bio)

  -- `Lpkey_meth_derive` behind the managed BIO.
  pub derive_with : K → ℕ → Option ℕ → Option ℕ → Outcome Value × K
  derive_with k bio key peer =
      let made = evp.ctx_new k key in
      elim made.0 [ none ↦ derive_fails made.1 bio none | some ctx ↦ derive_on made.1 bio ctx peer ]

  -- `Lpkey_meth_derive`
  pub derive : K → Key → Key → Outcome Value × K
  derive k key peer = with_pkey (pkey_from_arg key 0 false) k λ own.
      with_pkey (pkey_from_arg peer 0 false) k λ other.
        (let made = evp.bio_new k in
          elim made.0 [ none ↦ (raise, made.1) | some bio ↦ derive_with made.1 bio own other ])

  pub free_params : K → Option ℕ → K
  free_params k none = k
  free_params k (some params) = evp.params_free k params

  pub free_bld : K → Option ℕ → K
  free_bld k none = k
  free_bld k (some param_bld) = evp.bld_free k param_bld

  -- `err:` of `Limport_public_ec_raw`.
  pub import_fails : K → Option ℕ → Option ℕ → Option ℕ → Option Key × K
  import_fails k ctx params param_bld =
      (none, free_bld (free_params (free_ctx evp k ctx) params) param_bld)

  -- `Limport_public_ec_raw` once it has a context.
  pub import_on : K → ℕ → ℕ → ℕ → Option Key × K
  import_on k ctx params param_bld =
      let begun = evp.fromdata_init k ctx in
      let made = evp.fromdata begun.1 ctx params in
      if not begun.0
      then import_fails begun.1 (some ctx) (some params) (some param_bld)
      else if failed made.0
      then import_fails made.2 (some ctx) (some params) (some param_bld)
      else (
        some (push_pkey made.1 (evp.pkey_id made.1) false),
        evp.bld_free (evp.params_free (evp.ctx_free made.2 (some ctx)) params) param_bld,
      )

  -- From EVP_PKEY_CTX_new_from_name on.
  pub import_params : K → ℕ → ℕ → Option Key × K
  import_params k params param_bld =
      let made = evp.ctx_new_ec k in
      elim made.0 [
        | none ↦ import_fails made.1 none (some params) (some param_bld)
        | some ctx ↦ import_on made.1 ctx params param_bld
      ]

  -- From OSSL_PARAM_BLD_push_utf8_string on.
  pub import_with : K → ℕ → List ℕ → List ℕ → Option Key × K
  import_with k param_bld pubkey curve =
      let grouped = evp.push_group k param_bld (c_string curve) in
      let filled = evp.push_pub grouped.1 param_bld pubkey in
      let built = evp.to_param filled.1 param_bld in
      if not grouped.0
      then import_fails grouped.1 none none (some param_bld)
      else if not filled.0
      then import_fails filled.1 none none (some param_bld)
      else elim built.0 [
        | none ↦ import_fails built.1 none none (some param_bld)
        | some params ↦ import_params built.1 params param_bld
      ]

  -- `Limport_public_ec_raw`; nil is `none`.
  pub import_public_ec_raw : K → List ℕ → List ℕ → Option Key × K
  import_public_ec_raw k pubkey curve =
      let made = evp.bld_new k in
      elim made.0 [
        | none ↦ import_fails made.1 none none none
        | some param_bld ↦ import_with made.1 param_bld pubkey curve
      ]
