-- ===== src/Crypto/Contexts/Imported.antt =====
-- The objects that `import_public_ec_raw` makes and releases.
use prosody.Base.{
  ℕ, ◌+◌, ◌≡◌, ap, ◌∙◌, not, List, Option, none, some, Option-cases, inl, inr, arith,
}
use prosody.Base.Lua.{if_held, c_string}
use prosody.Crypto.Evp.{Evp, Key}
use prosody.Crypto.Keys.{failed}
use prosody.Crypto.Contexts.{
  free_params, free_bld, import_fails, import_on, import_params, import_with, import_public_ec_raw,
}
use prosody.Crypto.Contexts.Held.{
  Kind, context, parameters, builder, one, size, Counts, free_ctx-held,
}

module _ {ℓ} {K : Type ℓ} (evp : Evp K) (kind : Kind) (held : K → ℕ)
    (counts : Counts evp kind held) where
  free_params-held :
      (k : K) (params : Option ℕ) (n : ℕ)
      → held k ≡ n + size (one kind parameters) params
      → held (free_params evp k params) ≡ n
  unfolding free_params
  free_params-held k none n e = e ∙ omega arith
  free_params-held k (some params) n e =
      let less = counts.params_freed k params (omega (arith, e)) in omega (arith, less, e)

  free_bld-held :
      (k : K) (param_bld : Option ℕ) (n : ℕ)
      → held k ≡ n + size (one kind builder) param_bld
      → held (free_bld evp k param_bld) ≡ n
  unfolding free_bld
  free_bld-held k none n e = e ∙ omega arith
  free_bld-held k (some param_bld) n e =
      let less = counts.bld_freed k param_bld (omega (arith, e)) in omega (arith, less, e)

  import_fails-held :
      (k : K) (ctx params param_bld : Option ℕ) (n : ℕ)
      → held k
        ≡ n
          + size (one kind builder) param_bld
          + size (one kind parameters) params
          + size (one kind context) ctx
      → held (import_fails evp k ctx params param_bld).1 ≡ n
  unfolding import_fails
  import_fails-held k ctx params param_bld n e = free_bld-held _ param_bld n (
      free_params-held _ params (n + size (one kind builder) param_bld) (
        free_ctx-held evp kind held counts k ctx
          (n + size (one kind builder) param_bld + size (one kind parameters) params) e))

  import_on-held :
      (k : K) (ctx params param_bld n : ℕ)
      → held k ≡ n + one kind builder + one kind parameters + one kind context
      → held (import_on evp k ctx params param_bld).1 ≡ n
  unfolding import_on
  import_on-held k ctx params param_bld n e =
      let begun = evp.fromdata_init k ctx in
      let made = evp.fromdata begun.1 ctx params in
      let h1 = counts.import_begun k ctx ∙ e in
      let h2 = counts.made begun.1 ctx params ∙ h1 in
      let f1 = counts.ctx_freed made.2 ctx (omega (arith, h2)) in
      let k1 = evp.ctx_free made.2 (some ctx) in
      let f2 = counts.params_freed k1 params (omega (arith, h2, f1)) in
      let k2 = evp.params_free k1 params in
      let f3 = counts.bld_freed k2 param_bld (omega (arith, h2, f1, f2)) in
      if_held held n (not begun.0) _ _
        (import_fails-held begun.1 (some ctx) (some params) (some param_bld) n (h1 ∙ omega arith))
        (if_held held n (failed made.0) _ _
          (import_fails-held made.2 (some ctx) (some params) (some param_bld) n (h2 ∙ omega arith))
          (omega (arith, h2, f1, f2, f3)))

  import_params-held :
      (k : K) (params param_bld n : ℕ)
      → held k ≡ n + one kind builder + one kind parameters
      → held (import_params evp k params param_bld).1 ≡ n
  unfolding import_params
  import_params-held k params param_bld n e =
      let made = evp.ctx_new_ec k in
      let m = counts.ec_made k in
      elim (Option-cases made.0) [
        | inl h ↦
            let size_of : size (one kind context) made.0 ≡ 0 = ap (size (one kind context)) h in
            rw (h, import_params)
              (import_fails-held made.1 none (some params) (some param_bld) n
                (omega (arith, m, e, size_of)))
        | inr (ctx, h) ↦
            let size_of : size (one kind context) made.0 ≡ one kind context =
              ap (size (one kind context)) h in
            rw (h, import_params)
              (import_on-held made.1 ctx params param_bld n (omega (arith, m, e, size_of)))
      ]

  built-held :
      (built : Option ℕ × K) (param_bld n : ℕ)
      → held built.1 ≡ n + one kind builder + size (one kind parameters) built.0
      → (let done : Option Key × K = elim built.0 [
        | none ↦ import_fails evp built.1 none none (some param_bld)
        | some params ↦ import_params evp built.1 params param_bld
      ] in
          held done.1 ≡ n)
  built-held (none, k) param_bld n e =
      import_fails-held k none none (some param_bld) n (e ∙ omega arith)
  built-held (some params, k) param_bld n e =
      import_params-held k params param_bld n (e ∙ omega arith)

  import_with-held :
      (k : K) (param_bld : ℕ) (pubkey curve : List ℕ) (n : ℕ)
      → held k ≡ n + one kind builder
      → held (import_with evp k param_bld pubkey curve).1 ≡ n
  unfolding import_with
  import_with-held k param_bld pubkey curve n e =
      let grouped = evp.push_group k param_bld (c_string curve) in
      let filled = evp.push_pub grouped.1 param_bld pubkey in
      let built = evp.to_param filled.1 param_bld in
      let h1 = counts.grouped k param_bld (c_string curve) ∙ e in
      let h2 = counts.filled grouped.1 param_bld pubkey ∙ h1 in
      let h3 = counts.params_made filled.1 param_bld in
      if_held held n (not grouped.0) _ _
        (import_fails-held grouped.1 none none (some param_bld) n (h1 ∙ omega arith))
        (if_held held n (not filled.0) _ _
          (import_fails-held filled.1 none none (some param_bld) n (h2 ∙ omega arith))
          (built-held built param_bld n (omega (arith, h2, h3))))

  imported-held :
      (k : K) (pubkey curve : List ℕ) → held (import_public_ec_raw evp k pubkey curve).1 ≡ held k
  unfolding import_public_ec_raw
  imported-held k pubkey curve =
      let made = evp.bld_new k in
      let m = counts.bld_made k in
      elim (Option-cases made.0) [
        | inl h ↦
            let size_of : size (one kind builder) made.0 ≡ 0 = ap (size (one kind builder)) h in
            rw (h, import_public_ec_raw)
              (import_fails-held made.1 none none none (held k) (omega (arith, m, size_of)))
        | inr (param_bld, h) ↦
            let size_of : size (one kind builder) made.0 ≡ one kind builder =
              ap (size (one kind builder)) h in
            rw (h, import_public_ec_raw)
              (import_with-held made.1 param_bld pubkey curve (held k) (omega (arith, m, size_of)))
      ]

-- Where OpenSSL counts its objects as its manual says, on each path through `import_public_ec_raw`,
-- of each kind as many objects are held afterwards as before: the builder, the parameters and the
-- context that it makes are each released, and none of them twice.
pub import_public_ec_raw-held {ℓ} :
    {K : Type ℓ} (evp : Evp K) (held : Kind → K → ℕ)
    → ((kind : Kind) → Counts evp kind (held kind))
    → (k : K) (pubkey curve : List ℕ) (kind : Kind)
    → held kind (import_public_ec_raw evp k pubkey curve).1 ≡ held kind k
import_public_ec_raw-held evp held counts k pubkey curve kind =
    imported-held evp kind (held kind) (counts kind) k pubkey curve
