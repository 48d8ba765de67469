-- ===== src/Crypto/Cipher/Authentic.antt =====
-- The tag of a text that `Levp_decrypt` gives.
use prosody.Base.{
  ℕ, ◌-◌, ◌^◌, ◌<◌, ◌≡◌, Bool, true, false, List, [], ◌∷◌, ◌++◌, some, length, drop, ltb, leb, ◌==◌,
  if◌then◌else◌, Bool-cases, inl, inr, subst, Option, lt→ltb, arith,
}
use prosody.Base.Int.{pos, leb_ℤ}
use prosody.Base.Word.{int_of_size}
use prosody.Base.Lua.{string, Outcome, ret, fault, ◌>>=◌}
use prosody.Crypto.{demand, within}
use prosody.Crypto.Cipher.{
  Mode, managed, key_len_of, iv_len_of, tag_len_of, OpenSsl, verify, unseal, evp_decrypt, decrypt,
  is_true,
}

-- The call behind a test that was passed gave the result.
demand-ret {ℓ} :
    {A : Type ℓ} (b : Bool) (f : Unit → Outcome A) (a : A) → (demand b >>= f) ≡ ret a → f tt ≡ ret a
demand-ret true f a e = e
demand-ret false f a e = absurd (ground (arith, e))

within-ret {ℓ} :
    {A : Type ℓ} (room : ℕ) (bytes : List ℕ) (f : Unit → Outcome A) (a : A)
    → (within room bytes >>= f) ≡ ret a
    → f tt ≡ ret a
within-ret room bytes f a e = elim (Bool-cases (leb (length bytes) room)) [
  | inl fits ↦ subst (λ b. ((if b then ret tt else fault) >>= f) ≡ ret a) fits e
  | inr out ↦ absurd (ground (arith, out, e))
]

managed-ret {ℓ} :
    {C : Type ℓ} {A : Type 0} (m : Option C) (ctx : C) (f : C → Outcome A) (a : A)
    → m ≡ some ctx
    → (managed m >>= f) ≡ ret a
    → f ctx ≡ ret a
managed-ret m ctx f a h e = subst (λ n. (managed n >>= f) ≡ ret a) h e

module _ {ℓ} {C : Type ℓ} (o : OpenSsl C) where
  verify-ret :
      (ctx : C) (room : ℕ) (text plaintext : List ℕ)
      → verify o ctx room text ≡ ret (string plaintext ∷ [])
      → leb_ℤ (o.decrypt_final ctx).0 (pos 0) ≡ false
  unfolding verify
  verify-ret ctx room text plaintext e =
      let told = within-ret room (text ++ (o.decrypt_final ctx).1) _ (string plaintext ∷ []) e in
      elim (Bool-cases (leb_ℤ (o.decrypt_final ctx).0 (pos 0))) [
        | inl failed ↦ absurd (ground (arith, failed, told))
        | inr done ↦ done
      ]

  -- The context with the last bytes of a ciphertext as its tag, once the others were read.
  abbrev pub checked : C → ℕ → List ℕ → C
  checked ctx tag_len ciphertext =
      let text_len = length ciphertext - tag_len in
      (o.set_tag (o.decrypt_update ctx ciphertext (int_of_size text_len)).2
        (drop text_len ciphertext)).1

  unseal-ret :
      (ctx : C) (tag_len : ℕ) (ciphertext plaintext : List ℕ)
      → ltb 0 tag_len ≡ true
      → unseal o ctx tag_len ciphertext ≡ ret (string plaintext ∷ [])
      → leb_ℤ (o.decrypt_final (checked ctx tag_len ciphertext)).0 (pos 0) ≡ false
  unfolding unseal
  unseal-ret ctx tag_len ciphertext plaintext has_tag e =
      let text_len = length ciphertext - tag_len in
      let written = o.decrypt_update ctx ciphertext (int_of_size text_len) in
      let tagged = o.set_tag written.2 (drop text_len ciphertext) in
      let rest =
        demand-ret (is_true written.0) _ _ (within-ret (length ciphertext) written.1 _ _ e) in
      let with_tag =
        subst
          (λ b.
            (if b
              then (demand (is_true tagged.0) >>= λ done.
                  verify o tagged.1 (length ciphertext) written.1)
              else verify o written.2 (length ciphertext) written.1)
            ≡ ret (string plaintext ∷ []))
          has_tag rest in
      verify-ret tagged.1 (length ciphertext) written.1 plaintext
        (demand-ret (is_true tagged.0) _ _ with_tag)

int_of_small : (n : ℕ) → n < 2 ^ 31 → int_of_size n ≡ pos n
int_of_small n h = ground (arith, h)

-- Where the final call accepts no tag but the one that OpenSSL expects of its context: if `decrypt`
-- of a cipher with tags gives a text, the last bytes of the ciphertext are the tag that is expected
-- once the bytes before them were read, with the key and the iv that were given, for a ciphertext of
-- less than 2^31 bytes, whose lengths an `int` holds.
pub decrypt-authentic {ℓ} :
    {C : Type ℓ} (o : OpenSsl C) (expected : C → List ℕ)
    → ((ctx : C) (tag : List ℕ)
        → leb_ℤ (o.decrypt_final (o.set_tag ctx tag).1).0 (pos 0) ≡ false
        → tag ≡ expected ctx)
    → (mode : Mode) (key iv ciphertext plaintext : List ℕ) (top : ℕ) (ctx : C) → 0 < tag_len_of mode
    → length ciphertext < 2 ^ 31
    → o.ctx_new ≡ some ctx
    → decrypt o mode key iv ciphertext top ≡ ret (string plaintext ∷ [])
    → (let text_len = length ciphertext - tag_len_of mode in
        drop text_len ciphertext
        ≡ expected
            (o.decrypt_update
              (o.decrypt_key (o.decrypt_init ctx mode).1 key iv).1
              ciphertext
              (pos text_len)).2)
unfolding decrypt evp_decrypt
decrypt-authentic o expected law mode key iv ciphertext plaintext top ctx has_tag short makes e =
    let a = demand-ret (length key == key_len_of mode) _ _ e in
    let b = demand-ret (length iv == iv_len_of mode) _ _ a in
    let c = demand-ret (ltb (tag_len_of mode) (length ciphertext)) _ _ b in
    let d = demand-ret (leb top 3) _ _ c in
    let m = managed-ret o.ctx_new ctx _ _ makes d in
    let begun = o.decrypt_init ctx mode in
    let keyed = o.decrypt_key begun.1 key iv in
    let f = demand-ret (is_true begun.0) _ _ m in
    let g = demand-ret (is_true keyed.0) _ _ f in
    let text_len = length ciphertext - tag_len_of mode in
    let small : int_of_size text_len ≡ pos text_len = int_of_small text_len (omega arith) in
    subst (λ n. drop text_len ciphertext ≡ expected (o.decrypt_update keyed.1 ciphertext n).2) small
      (law _ _ (
        unseal-ret o keyed.1 (tag_len_of mode) ciphertext plaintext
          (lt→ltb 0 (tag_len_of mode) has_tag) g))
