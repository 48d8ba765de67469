-- ===== src/Hashes/Release.antt =====
-- The contexts that `Levp_hash` and `Levp_hkdf` make.
use prosody.Base.{
  ℕ, ◌+◌, ◌≤◌, ◌<◌, ◌≡◌, refl, ◌∙◌, inl, inr, Bool, false, not, List, Option, none, some,
  Option-cases, arith, ltb,
}
use prosody.Base.Int.{ℤ}
use prosody.Base.Word.{size_of_ℤ}
use prosody.Base.Lua.{if_held, Outcome}
use prosody.Hashes.{
  Crypto, max_hkdf_output, push_digest, hash_fail, evp_hash, give_salt, failed, evp_hkdf,
}

-- What OpenSSL's manual says of the number of EVP_MD_CTX: new makes one where it does not give NULL,
-- free releases one where there is one, and ignores NULL, and the other calls do neither.
pub record CountsDigests {ℓ} {K : Type ℓ} (crypto : Crypto K) (held : K → ℕ) : Type ℓ where
  pub made :
      (k : K) (ctx : ℕ)
      → (crypto.md_ctx_new k).0 ≡ some ctx
      → held (crypto.md_ctx_new k).1 ≡ held k + 1
  pub not_made : (k : K) → (crypto.md_ctx_new k).0 ≡ none → held (crypto.md_ctx_new k).1 ≡ held k
  pub begun : (k : K) (ctx evp : ℕ) → held (crypto.digest_init k ctx evp).1 ≡ held k
  pub fed : (k : K) (ctx : ℕ) (s : List ℕ) → held (crypto.digest_update k ctx s).1 ≡ held k
  pub ended : (k : K) (ctx : ℕ) → held (crypto.digest_final k ctx).1 ≡ held k
  pub freed : (k : K) (ctx : ℕ) → 0 < held k → held (crypto.md_ctx_free k (some ctx)) + 1 ≡ held k
  pub null_freed : (k : K) → held (crypto.md_ctx_free k none) ≡ held k

-- The same for the EVP_PKEY_CTX.
pub record CountsKeys {ℓ} {K : Type ℓ} (crypto : Crypto K) (held : K → ℕ) : Type ℓ where
  pub made :
      (k : K) (ctx : ℕ)
      → (crypto.pkey_ctx_new k).0 ≡ some ctx
      → held (crypto.pkey_ctx_new k).1 ≡ held k + 1
  pub begun : (k : K) (ctx : Option ℕ) → held (crypto.derive_init k ctx).1 ≡ held k
  pub with_md : (k : K) (ctx : Option ℕ) (evp : ℕ) → held (crypto.set_hkdf_md k ctx evp).1 ≡ held k
  pub salted :
      (k : K) (ctx : Option ℕ) (s : List ℕ) → held (crypto.set_hkdf_salt k ctx s).1 ≡ held k
  pub keyed : (k : K) (ctx : Option ℕ) (s : List ℕ) → held (crypto.set_hkdf_key k ctx s).1 ≡ held k
  pub informed :
      (k : K) (ctx : Option ℕ) (s : List ℕ) → held (crypto.add_hkdf_info k ctx s).1 ≡ held k
  pub derived : (k : K) (ctx : Option ℕ) (n : ℕ) → held (crypto.derive k ctx n).2 ≡ held k

module _ {ℓ} {K : Type ℓ} (crypto : Crypto K) (held : K → ℕ) where
  -- A failure and the end both release the context.
  tail_held :
      CountsDigests crypto held
      → (o : Option (List ℕ)) (k : K) (ctx : ℕ) (hex_out : Bool) → 0 < held k
      → (let done : Outcome (List ℕ) × K = elim o [
        | none ↦ hash_fail crypto k (some ctx)
        | some hash ↦ (push_digest hash hex_out, crypto.md_ctx_free k (some ctx))
      ] in
          held done.1 + 1 ≡ held k)
  unfolding hash_fail
  tail_held counts none k ctx hex_out h = counts.freed k ctx h
  tail_held counts (some hash) k ctx hex_out h = counts.freed k ctx h

  give_salt-held :
      CountsKeys crypto held
      → (k : K) (ctx : Option ℕ) (salt : Option (List ℕ))
      → held (give_salt crypto k ctx salt).1 ≡ held k
  unfolding give_salt
  give_salt-held counts k ctx none = refl
  give_salt-held counts k ctx (some salt) = counts.salted k ctx salt

-- On each path through `Levp_hash`, whether it returns or raises an error, the context that it makes
-- is released once: as many are held afterwards as before.
pub evp_hash-held {ℓ} :
    {K : Type ℓ} (crypto : Crypto K) (held : K → ℕ)
    → CountsDigests crypto held
    → (k : K) (evp : ℕ) (s : List ℕ) (hex_out : Bool)
    → held (evp_hash crypto k evp s hex_out).1 ≡ held k
unfolding evp_hash hash_fail
evp_hash-held crypto held counts k evp s hex_out =
    let made = crypto.md_ctx_new k in
    elim (Option-cases made.0) [
      | inl e ↦ rw (e, evp_hash) (counts.null_freed made.1 ∙ counts.not_made k e)
      | inr (ctx, e) ↦
          let begun = crypto.digest_init made.1 ctx evp in
          let fed = crypto.digest_update begun.1 ctx s in
          let ended = crypto.digest_final fed.1 ctx in
          let one_more = counts.made k ctx e in
          let after_begun = counts.begun made.1 ctx evp in
          let after_fed = counts.fed begun.1 ctx s in
          let after_ended = counts.ended fed.1 ctx in
          let last =
            tail_held crypto held counts ended.0 ended.1 ctx hex_out
              (omega (arith, one_more, after_begun, after_fed, after_ended)) in
          rw (e, evp_hash)
            (if_held held (held k) (not begun.0) _ _
              (omega (
                arith,
                one_more,
                after_begun,
                counts.freed begun.1 ctx (omega (arith, one_more, after_begun)),
              ))
              (if_held held (held k) (not fed.0) _ _
                (omega (
                  arith,
                  one_more,
                  after_begun,
                  after_fed,
                  counts.freed fed.1 ctx (omega (arith, one_more, after_begun, after_fed)),
                ))
                (omega (arith, one_more, after_begun, after_fed, after_ended, last))))
    ]

-- Each call of `Levp_hkdf` that gets a context, for a length that is not above the limit, leaves one
-- more context held than before, whether it returns or raises an error.
pub evp_hkdf-held {ℓ} :
    {K : Type ℓ} (crypto : Crypto K) (held : K → ℕ)
    → CountsKeys crypto held
    → (k : K) (evp ctx : ℕ) (wanted : ℤ) (input : List ℕ) (salt : Option (List ℕ)) (info : List ℕ)
    → size_of_ℤ wanted ≤ max_hkdf_output
    → (crypto.pkey_ctx_new k).0 ≡ some ctx
    → held (evp_hkdf crypto k evp wanted input salt info).1 ≡ held k + 1
unfolding evp_hkdf
evp_hkdf-held crypto held counts k evp ctx wanted input salt info small e =
    let made = crypto.pkey_ctx_new k in
    let begun = crypto.derive_init made.1 made.0 in
    let with_md = crypto.set_hkdf_md begun.1 made.0 evp in
    let salted = give_salt crypto with_md.1 made.0 salt in
    let keyed = crypto.set_hkdf_key salted.1 made.0 input in
    let informed = crypto.add_hkdf_info keyed.1 made.0 info in
    let derived = crypto.derive informed.1 made.0 (size_of_ℤ wanted) in
    let h1 = counts.begun made.1 made.0 ∙ counts.made k ctx e in
    let h2 = counts.with_md begun.1 made.0 evp ∙ h1 in
    let h3 = give_salt-held crypto held counts with_md.1 made.0 salt ∙ h2 in
    let h4 = counts.keyed salted.1 made.0 input ∙ h3 in
    let h5 = counts.informed keyed.1 made.0 info ∙ h4 in
    let h6 = counts.derived informed.1 made.0 (size_of_ℤ wanted) ∙ h5 in
    let within : ltb max_hkdf_output (size_of_ℤ wanted) ≡ false = ground arith in
    let n = held k + 1 in
    rw (within, evp_hkdf)
      (if_held held n (failed begun.0) _ _ h1 (
        if_held held n (failed with_md.0) _ _ h2 (
          if_held held n (failed salted.0) _ _ h3 (
            if_held held n (failed keyed.0) _ _ h4 (
              if_held held n (failed informed.0) _ _ h5
                (if_held held n (failed derived.0) _ _ h6 h6))))))
