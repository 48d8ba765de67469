-- ===== src/Crypto/Cipher/Tests.antt =====
-- A small cipher, and the theorems at it.
use prosody.Base.{
  ℕ, ◌≡◌, refl, ap, Bool, true, false, List, [], ◌∷◌, some, length, take, take_all, take-append,
  replicate, length-replicate, drop, inl, inr, Bool-cases, arith,
}
use prosody.Base.Int.{pos, pos_part, leb_ℤ}
use prosody.Base.Lua.{string, eq_bytes, eq_bytes_refl, eq_bytes-eq, ret}
use prosody.Crypto.Cipher.{aes_256_gcm, OpenSsl, encrypt, decrypt, evp_decrypt, unseal, verify}
use prosody.Crypto.Cipher.RoundTrip.{Contexts, Works, decrypt-encrypt}
use prosody.Crypto.Cipher.Authentic.{decrypt-authentic}

-- It leaves the text as it is, and its tag repeats the length of the text. A context has the length
-- of what was read, and whether the tag fits.
abbrev small : OpenSsl (ℕ × Bool)
small = record {
  ctx_new = some (0, false);
  encrypt_init = λ c mode. (pos 1, c);
  encrypt_key = λ c key iv. (pos 1, c);
  encrypt_update = λ c bytes n. (pos 1, take (pos_part n) bytes, (pos_part n, false));
  encrypt_final = λ c. (pos 1, [], c);
  get_tag = λ c n. (pos 1, replicate n c.0);
  decrypt_init = λ c mode. (pos 1, c);
  decrypt_key = λ c key iv. (pos 1, c);
  decrypt_update = λ c bytes n. (pos 1, take (pos_part n) bytes, (pos_part n, false));
  set_tag = λ c tag. (pos 1, (c.0, eq_bytes tag (replicate 16 c.0)));
  decrypt_final = λ c. (elim c.1 [ false ↦ pos 0 | true ↦ pos 1 ], []);
}

abbrev contexts : Contexts (ℕ × Bool)
contexts = record {
  fresh = (0, false);
  begun = (0, false);
  sealing = λ key iv. (0, false);
  sealed = λ key iv text. (length text, false);
  ended = λ key iv text. (length text, false);
  opening = λ key iv. (0, false);
  opened = λ key iv text. (length text, false);
  tagged = λ key iv text. (length text, true);
}

small-Works :
    Works small aes_256_gcm contexts
      (λ key iv text. text)
      (λ key iv text. replicate 16 (length text))
small-Works = record {
  makes = refl;
  begins = refl;
  keys = λ key iv. refl;
  crypts =
      λ key iv text. ap (λ t. (pos 1, t, (length text, false))) (take_all text (length text) refl);
  crypt_length = λ key iv text. refl;
  ends = λ key iv text. refl;
  tags = λ key iv text. refl;
  tag_length = λ key iv text. length-replicate 16 (length text);
  begins_too = refl;
  keys_too = λ key iv. refl;
  decrypts = λ key iv text rest.
      ap (λ t. (pos 1, t, (length text, false))) (take-append text rest (length text) refl);
  takes_tag = λ key iv text.
      ap (λ b. (pos 1, (length text, b))) (eq_bytes_refl (replicate 16 (length text)));
  accepts = λ key iv text. refl;
  ends_untagged = λ key iv text e. absurd (omega (arith, e));
}

abbrev key : List ℕ
key = replicate 32 5

abbrev iv : List ℕ
iv = replicate 12 9

decrypt-encrypt_example :
    (sealed : List ℕ) × (encrypt small aes_256_gcm key iv (1 ∷ 2 ∷ []) 3 ≡ ret (string sealed ∷ []))
    × (length sealed ≡ 18)
    × (decrypt small aes_256_gcm key iv sealed 3 ≡ ret (string (1 ∷ 2 ∷ []) ∷ []))
decrypt-encrypt_example =
    decrypt-encrypt small aes_256_gcm contexts (λ key iv text. text)
      (λ key iv text. replicate 16 (length text)) small-Works key iv (1 ∷ 2 ∷ []) 3 refl refl
      (omega arith) (omega arith)

-- The tag of a text of one byte, behind it.
accepted : decrypt small aes_256_gcm key iv (8 ∷ replicate 16 1) 3 ≡ ret (string (8 ∷ []) ∷ [])
unfolding decrypt evp_decrypt unseal verify
accepted = refl

expects :
    (c : ℕ × Bool) (tag : List ℕ)
    → leb_ℤ (small.decrypt_final (small.set_tag c tag).1).0 (pos 0) ≡ false
    → tag ≡ replicate 16 c.0
expects c tag e = elim (Bool-cases (eq_bytes tag (replicate 16 c.0))) [
  | inl same ↦ eq_bytes-eq tag (replicate 16 c.0) same
  | inr other ↦ absurd (ground (arith, other, e))
]

decrypt-authentic_example : drop {A = ℕ} 1 (8 ∷ replicate 16 1) ≡ replicate 16 1
decrypt-authentic_example =
    decrypt-authentic small (λ c. replicate 16 c.0) expects aes_256_gcm key iv (8 ∷ replicate 16 1)
      (8 ∷ []) 3 (0, false) (omega arith) (omega arith) refl accepted
