-- ===== src/Crypto/Cipher/RoundTrip.antt =====
-- What `Levp_decrypt` gives of what `Levp_encrypt` gave.
use prosody.Base.{
  ℕ, ◌+◌, ◌-◌, ◌^◌, ◌<◌, ◌≤◌, ◌%◌, ◌≡◌, refl, ap, ◌∙◌, inl, inr, true, false, List, [], ◌∷◌, ◌++◌,
  some, length, length-append, drop, drop_behind, ltb, leb, ◌==◌, if◌then◌else◌, Bool-cases, arith,
}
use mathlib.Core.List.{append-nil}
use prosody.Base.Int.{pos}
use prosody.Base.Word.{int_of_size}
use prosody.Base.Lua.{string, ret, raise}
use prosody.Crypto.{within}
use prosody.Crypto.Cipher.{
  Mode, key_len_of, iv_len_of, tag_len_of, tag_len_small, OpenSsl, add_tag, seal, evp_encrypt,
  encrypt, verify, unseal, evp_decrypt, decrypt,
}

-- The contexts that the calls on a key, an iv and a text go through.
pub record Contexts {ℓ} (C : Type ℓ) : Type ℓ where
  pub fresh : C
  pub begun : C
  pub sealing : List ℕ → List ℕ → C
  pub sealed : List ℕ → List ℕ → List ℕ → C
  pub ended : List ℕ → List ℕ → List ℕ → C
  pub opening : List ℕ → List ℕ → C
  pub opened : List ℕ → List ℕ → List ℕ → C
  pub tagged : List ℕ → List ℕ → List ℕ → C

-- A cipher that works: the calls succeed, an update writes as many bytes as it reads, the final calls
-- write nothing, and the text behind a ciphertext and the check of its tag are those that were
-- encrypted.
pub record Works {ℓ} {C : Type ℓ} (o : OpenSsl C) (mode : Mode) (c : Contexts C)
    (crypt : List ℕ → List ℕ → List ℕ → List ℕ) (auth : List ℕ → List ℕ → List ℕ → List ℕ)
    : Type ℓ where
  pub makes : o.ctx_new ≡ some c.fresh
  pub begins : o.encrypt_init c.fresh mode ≡ (pos 1, c.begun)
  pub keys : (key iv : List ℕ) → o.encrypt_key c.begun key iv ≡ (pos 1, c.sealing key iv)
  pub crypts :
      (key iv text : List ℕ)
      → o.encrypt_update (c.sealing key iv) text (pos (length text))
        ≡ (pos 1, crypt key iv text, c.sealed key iv text)
  pub crypt_length : (key iv text : List ℕ) → length (crypt key iv text) ≡ length text
  pub ends :
      (key iv text : List ℕ)
      → o.encrypt_final (c.sealed key iv text) ≡ (pos 1, [], c.ended key iv text)
  pub tags :
      (key iv text : List ℕ)
      → o.get_tag (c.ended key iv text) (tag_len_of mode) ≡ (pos 1, auth key iv text)
  pub tag_length : (key iv text : List ℕ) → length (auth key iv text) ≡ tag_len_of mode
  pub begins_too : o.decrypt_init c.fresh mode ≡ (pos 1, c.begun)
  pub keys_too : (key iv : List ℕ) → o.decrypt_key c.begun key iv ≡ (pos 1, c.opening key iv)
  pub decrypts :
      (key iv text rest : List ℕ)
      → o.decrypt_update (c.opening key iv) (crypt key iv text ++ rest) (pos (length text))
        ≡ (pos 1, text, c.opened key iv text)
  pub takes_tag :
      (key iv text : List ℕ)
      → o.set_tag (c.opened key iv text) (auth key iv text) ≡ (pos 1, c.tagged key iv text)
  pub accepts : (key iv text : List ℕ) → o.decrypt_final (c.tagged key iv text) ≡ (pos 1, [])
  pub ends_untagged :
      (key iv text : List ℕ)
      → tag_len_of mode ≡ 0
      → o.decrypt_final (c.opened key iv text) ≡ (pos 1, [])

module _ {ℓ} {C : Type ℓ} (o : OpenSsl C) (mode : Mode) (c : Contexts C)
    (crypt : List ℕ → List ℕ → List ℕ → List ℕ) (auth : List ℕ → List ℕ → List ℕ → List ℕ)
    (works : Works o mode c crypt auth) (key iv text : List ℕ) where
  -- The ciphertext with its tag.
  abbrev whole : List ℕ
  whole = crypt key iv text ++ auth key iv text

  whole-length : length whole ≡ length text + tag_len_of mode
  whole-length =
      length-append (crypt key iv text) (auth key iv text)
      ∙ ap (λ n. n + length (auth key iv text)) (works.crypt_length key iv text)
      ∙ ap (λ n. length text + n) (works.tag_length key iv text)

  tag_behind : drop (length text) whole ≡ auth key iv text
  tag_behind =
      let n : length text ≡ length (crypt key iv text) + 0 =
        omega (arith, works.crypt_length key iv text) in
      ap (λ m. drop m whole) n ∙ drop_behind (crypt key iv text) (auth key iv text) 0

  nothing : (bytes : List ℕ) → length bytes ≡ 0 → bytes ≡ []
  nothing [] e = refl
  nothing (b ∷ bytes) e = absurd (omega (arith, e))

  within-fits : (room : ℕ) (bytes : List ℕ) → length bytes ≤ room → within room bytes ≡ ret tt
  within-fits room bytes h = ground (arith, h)

  add_tag_lem :
      (room : ℕ)
      → length whole ≤ room
      → add_tag o (c.ended key iv text) (tag_len_of mode) room (crypt key iv text)
        ≡ ret (string whole ∷ [])
  unfolding add_tag
  add_tag_lem room h = elim (Bool-cases (ltb 0 (tag_len_of mode))) [
    | inl e ↦ rw (e, works.tags key iv text, within-fits room whole h) refl
    | inr e ↦
        let untagged =
          nothing (auth key iv text) (ground (arith, works.tag_length key iv text, e)) in
        rw (e, untagged, append-nil (crypt key iv text)) refl
  ]

  seal_lem :
      length text < 2 ^ 31
      → tag_len_of mode ≤ 16
      → seal o (c.sealing key iv) (tag_len_of mode) text ≡ ret (string whole ∷ [])
  unfolding seal
  seal_lem h small =
      let int : int_of_size (length text) ≡ pos (length text) = ground (arith, h) in
      let room = (length text + tag_len_of mode) % 2 ^ 64 in
      let same : room ≡ length text + tag_len_of mode = omega (arith, h, small) in
      let fits =
        within-fits room (crypt key iv text)
          (omega (arith, same, works.crypt_length key iv text)) in
      let tail = add_tag_lem room (omega (arith, same, whole-length)) in
      rw
        (
          int,
          works.crypts key iv text,
          works.ends key iv text,
          append-nil (crypt key iv text),
          fits,
          tail,
        )
        refl

  encrypt_lem :
      (top : ℕ)
      → length key ≡ key_len_of mode
      → length iv ≡ iv_len_of mode
      → top ≤ 3
      → length text < 2 ^ 31
      → tag_len_of mode ≤ 16
      → encrypt o mode key iv text top ≡ ret (string whole ∷ [])
  unfolding encrypt evp_encrypt seal add_tag
  encrypt_lem top k i three h small =
      let k' : (length key == key_len_of mode) ≡ true = ground (arith, k) in
      let i' : (length iv == iv_len_of mode) ≡ true = ground (arith, i) in
      let t' : leb top 3 ≡ true = ground (arith, three) in
      rw (k', i', t', works.makes, works.begins, works.keys key iv, seal_lem h small) refl

  verify_lem : verify o (c.tagged key iv text) (length whole) text ≡ ret (string text ∷ [])
  unfolding verify
  verify_lem =
      let fits = within-fits (length whole) text (omega (arith, whole-length)) in
      rw (works.accepts key iv text, append-nil text, fits) refl

  verify_untagged :
      tag_len_of mode ≡ 0
      → verify o (c.opened key iv text) (length whole) text ≡ ret (string text ∷ [])
  unfolding verify
  verify_untagged e =
      let fits = within-fits (length whole) text (omega (arith, whole-length)) in
      rw (works.ends_untagged key iv text e, append-nil text, fits) refl

  unseal_lem :
      length text < 2 ^ 31
      → unseal o (c.opening key iv) (tag_len_of mode) whole ≡ ret (string text ∷ [])
  unfolding unseal
  unseal_lem h =
      let n : length whole - tag_len_of mode ≡ length text = omega (arith, whole-length) in
      let int : int_of_size (length text) ≡ pos (length text) = ground (arith, h) in
      let fits = within-fits (length whole) text (omega (arith, whole-length)) in
      let tag : drop (length text) whole ≡ auth key iv text = tag_behind in
      elim (Bool-cases (ltb 0 (tag_len_of mode))) [
        | inl e ↦
            rw
              (
                n,
                int,
                works.decrypts key iv text (auth key iv text),
                fits,
                tag,
                works.takes_tag key iv text,
                e,
              )
              verify_lem
        | inr e ↦
            rw (n, int, works.decrypts key iv text (auth key iv text), fits, e)
              (verify_untagged (ground (arith, e)))
      ]

  decrypt_lem :
      (top : ℕ)
      → length key ≡ key_len_of mode
      → length iv ≡ iv_len_of mode
      → top ≤ 3
      → length text < 2 ^ 31
      → decrypt o mode key iv whole top
        ≡ (if length text == 0 then raise else ret (string text ∷ []))
  unfolding decrypt evp_decrypt unseal verify
  decrypt_lem top k i three h =
      let k' : (length key == key_len_of mode) ≡ true = ground (arith, k) in
      let i' : (length iv == iv_len_of mode) ≡ true = ground (arith, i) in
      let t' : leb top 3 ≡ true = ground (arith, three) in
      elim (Bool-cases (length text == 0)) [
        | inl e ↦
            let none_left : ltb (tag_len_of mode) (length whole) ≡ false =
              ground (arith, e, whole-length) in
            rw (k', i', none_left, e) refl
        | inr e ↦
            let some_left : ltb (tag_len_of mode) (length whole) ≡ true =
              ground (arith, e, whole-length) in
            rw
              (
                k',
                i',
                some_left,
                t',
                works.makes,
                works.begins_too,
                works.keys_too key iv,
                unseal_lem h,
                e,
              )
              refl
      ]

-- With a key and an iv of the lengths that the cipher has, no fourth argument, a text below 2 ^ 31
-- bytes, and a cipher that works: `encrypt` gives a ciphertext that is longer than the text by the
-- tag, and `decrypt` of it gives the text back, except that it raises an error where the text is
-- empty.
pub decrypt-encrypt {ℓ} :
    {C : Type ℓ} (o : OpenSsl C) (mode : Mode) (c : Contexts C)
    (crypt auth : List ℕ → List ℕ → List ℕ → List ℕ)
    → Works o mode c crypt auth
    → (key iv text : List ℕ) (top : ℕ) → length key ≡ key_len_of mode
    → length iv ≡ iv_len_of mode
    → top ≤ 3
    → length text < 2 ^ 31
    → (sealed : List ℕ) × (encrypt o mode key iv text top ≡ ret (string sealed ∷ []))
      × (length sealed ≡ length text + tag_len_of mode)
      × (decrypt o mode key iv sealed top
          ≡ (if length text == 0 then raise else ret (string text ∷ [])))
decrypt-encrypt o mode c crypt auth works key iv text top k i three h = (
  whole o mode c crypt auth works key iv text,
  encrypt_lem o mode c crypt auth works key iv text top k i three h (tag_len_small mode),
  whole-length o mode c crypt auth works key iv text,
  decrypt_lem o mode c crypt auth works key iv text top k i three h,
)
