-- ===== src/Crypto/Cipher.antt =====
-- util-src/crypto.c: `Levp_encrypt` and `Levp_decrypt`, with the three ciphers that are registered.
pub mod RoundTrip
pub mod Truncated
pub mod Authentic
mod Tests
use prosody.Base.{
  ℕ, ◌+◌, ◌-◌, ◌%◌, ◌^◌, ◌≤◌, arith, Bool, List, [], ◌∷◌, ◌++◌, Option, none, some, length, drop,
  not, ltb, leb, ◌==◌, if◌then◌else◌, codes,
}
use prosody.Base.Int.{ℤ, pos, leb_ℤ, eq_ℤ}
use prosody.Base.Word.{int_of_size}
use prosody.Base.Lua.{Value, nil, string, Outcome, ret, raise, ◌>>=◌}
use prosody.Crypto.{demand, within}

-- What EVP_aes_128_gcm and so on give.
pub data Mode : Type 0 where
  aes_128_gcm aes_256_gcm aes_256_ctr : Mode

abbrev pub key_len_of : Mode → ℕ
key_len_of aes_128_gcm = 16
key_len_of aes_256_gcm = 32
key_len_of aes_256_ctr = 32

abbrev pub iv_len_of : Mode → ℕ
iv_len_of aes_128_gcm = 12
iv_len_of aes_256_gcm = 12
iv_len_of aes_256_ctr = 16

abbrev pub tag_len_of : Mode → ℕ
tag_len_of aes_128_gcm = 16
tag_len_of aes_256_gcm = 16
tag_len_of aes_256_ctr = 0

pub tag_len_small : (mode : Mode) → tag_len_of mode ≤ 16
tag_len_small aes_128_gcm = omega arith
tag_len_small aes_256_gcm = omega arith
tag_len_small aes_256_ctr = omega arith

-- OpenSSL. `C` is what a context holds. A call gives what it returns, the bytes that it writes, and
-- the context. An update is given the bytes behind the pointer and their number as an `int`; the
-- call for a tag is given its length, and writes that many bytes.
pub record OpenSsl {ℓ} (C : Type ℓ) : Type ℓ where
  pub ctx_new : Option C
  pub encrypt_init : C → Mode → ℤ × C
  pub encrypt_key : C → List ℕ → List ℕ → ℤ × C
  pub encrypt_update : C → List ℕ → ℤ → ℤ × List ℕ × C
  pub encrypt_final : C → ℤ × List ℕ × C
  pub get_tag : C → ℕ → ℤ × List ℕ
  pub decrypt_init : C → Mode → ℤ × C
  pub decrypt_key : C → List ℕ → List ℕ → ℤ × C
  pub decrypt_update : C → List ℕ → ℤ → ℤ × List ℕ × C
  pub set_tag : C → List ℕ → ℤ × C
  pub decrypt_final : C → ℤ × List ℕ

-- `1 == returned`, and `returned` as a condition.
abbrev pub is_one : ℤ → Bool
is_one returned = eq_ℤ returned (pos 1)

abbrev pub is_true : ℤ → Bool
is_true returned = not (eq_ℤ returned (pos 0))

-- The managed allocator raises an error where it gets NULL.
abbrev pub managed {ℓ} : {C : Type ℓ} → Option C → Outcome C
managed none = raise
managed (some ctx) = ret ctx

module _ {ℓ} {C : Type ℓ} (o : OpenSsl C) where
  -- The end of `Levp_encrypt`, where nothing was written by the final call.
  pub add_tag : C → ℕ → ℕ → List ℕ → Outcome (List Value)
  add_tag ctx tag_len room ciphertext =
      if ltb 0 tag_len
      then (let tag = o.get_tag ctx tag_len in
          demand (is_one tag.0) >>= λ done.
          within room (ciphertext ++ tag.1) >>= λ fits. ret (string (ciphertext ++ tag.1) ∷ []))
      else ret (string ciphertext ∷ [])

  -- `Levp_encrypt` from the buffer on.
  pub seal : C → ℕ → List ℕ → Outcome (List Value)
  seal ctx tag_len plaintext =
      let room = (length plaintext + tag_len) % 2 ^ 64 in
      let written = o.encrypt_update ctx plaintext (int_of_size (length plaintext)) in
      let ended = o.encrypt_final written.2 in
      within room written.1 >>= λ fits. demand (is_one written.0) >>= λ updated.
      within room (written.1 ++ ended.1) >>= λ still_fits. demand (is_one ended.0) >>= λ finished.
      demand (length ended.1 == 0) >>= λ none_left. add_tag ended.2 tag_len room written.1

  -- `Levp_encrypt`; `top` is the number of arguments.
  pub evp_encrypt : Mode → ℕ → ℕ → ℕ → List ℕ → List ℕ → List ℕ → ℕ → Outcome (List Value)
  evp_encrypt cipher expected_key_len expected_iv_len tag_len key iv plaintext top =
      demand (length key == expected_key_len) >>= λ key_fits.
      demand (length iv == expected_iv_len) >>= λ iv_fits. demand (leb top 3) >>= λ no_more.
      managed o.ctx_new >>= λ ctx.
      (let begun = o.encrypt_init ctx cipher in
        let keyed = o.encrypt_key begun.1 key iv in
        demand (is_one begun.0) >>= λ initialised.
        demand (is_one keyed.0) >>= λ has_key. seal keyed.1 tag_len plaintext)

  -- `Laes_128_gcm_encrypt` and so on.
  pub encrypt : Mode → List ℕ → List ℕ → List ℕ → ℕ → Outcome (List Value)
  encrypt mode = evp_encrypt mode (key_len_of mode) (iv_len_of mode) (tag_len_of mode)

  -- The end of `Levp_decrypt`, from the final call on.
  pub verify : C → ℕ → List ℕ → Outcome (List Value)
  verify ctx room plaintext =
      let ended = o.decrypt_final ctx in
      within room (plaintext ++ ended.1) >>= λ fits.
      (if leb_ℤ ended.0 (pos 0)
        then ret (nil ∷ string (codes "verify-failed") ∷ [])
        else ret (string (plaintext ++ ended.1) ∷ []))

  -- `Levp_decrypt` from the buffer on.
  pub unseal : C → ℕ → List ℕ → Outcome (List Value)
  unseal ctx tag_len ciphertext =
      let room = length ciphertext in
      let text_len = length ciphertext - tag_len in
      let written = o.decrypt_update ctx ciphertext (int_of_size text_len) in
      let tagged = o.set_tag written.2 (drop text_len ciphertext) in
      within room written.1 >>= λ fits. demand (is_true written.0) >>= λ updated.
      (if ltb 0 tag_len
        then (demand (is_true tagged.0) >>= λ has_tag. verify tagged.1 room written.1)
        else verify written.2 room written.1)

  -- `Levp_decrypt`
  pub evp_decrypt : Mode → ℕ → ℕ → ℕ → List ℕ → List ℕ → List ℕ → ℕ → Outcome (List Value)
  evp_decrypt cipher expected_key_len expected_iv_len tag_len key iv ciphertext top =
      demand (length key == expected_key_len) >>= λ key_fits.
      demand (length iv == expected_iv_len) >>= λ iv_fits.
      demand (ltb tag_len (length ciphertext)) >>= λ has_text. demand (leb top 3) >>= λ no_more.
      managed o.ctx_new >>= λ ctx.
      (let begun = o.decrypt_init ctx cipher in
        let keyed = o.decrypt_key begun.1 key iv in
        demand (is_true begun.0) >>= λ initialised.
        demand (is_true keyed.0) >>= λ has_key. unseal keyed.1 tag_len ciphertext)

  -- `Laes_128_gcm_decrypt` and so on.
  pub decrypt : Mode → List ℕ → List ℕ → List ℕ → ℕ → Outcome (List Value)
  decrypt mode = evp_decrypt mode (key_len_of mode) (iv_len_of mode) (tag_len_of mode)
