-- ===== src/Crypto/Cipher/Truncated.antt =====
-- Texts that are too long for the `int` that OpenSSL takes.
use prosody.Base.{
  ℕ, ◌+◌, ◌%◌, ◌^◌, ◌<◌, ◌≤◌, ◌≡◌, refl, List, [], ◌++◌, length, length-append, take, length-take,
  leb, ◌==◌, arith,
}
use mathlib.Core.List.{append-nil}
use prosody.Base.Int.{pos}
use prosody.Base.Word.{int_of_size}
use prosody.Base.Lua.{Outcome, ret, raise, fault, ◌>>=◌}
use prosody.Crypto.{demand, within}
use prosody.Crypto.Cipher.{
  Mode, managed, key_len_of, iv_len_of, tag_len_of, tag_len_small, OpenSsl, is_one, add_tag, seal,
  evp_encrypt, encrypt,
}

-- An update reads and writes no more bytes than its number says, the final call writes nothing, and
-- the call for a tag writes as many bytes as it is asked for.
pub record KeepsToLengths {ℓ} {C : Type ℓ} (o : OpenSsl C) : Type ℓ where
  pub reads :
      (ctx : C) (bytes : List ℕ) (n : ℕ)
      → o.encrypt_update ctx bytes (pos n) ≡ o.encrypt_update ctx (take n bytes) (pos n)
  pub writes :
      (ctx : C) (bytes : List ℕ) (n : ℕ) → length (o.encrypt_update ctx bytes (pos n)).1 ≤ n
  pub ends : (ctx : C) → (o.encrypt_final ctx).1 ≡ []
  pub tags : (ctx : C) (n : ℕ) → length (o.get_tag ctx n).1 ≡ n

bind_cong {ℓ κ} :
    {A : Type ℓ} {B : Type κ} (m : Outcome A) (f g : A → Outcome B)
    → ((a : A) → f a ≡ g a)
    → (m >>= f) ≡ (m >>= g)
bind_cong (ret a) f g h = h a
bind_cong raise f g h = refl
bind_cong fault f g h = refl

-- A buffer that is larger than what is written makes no difference.
within_room :
    (a b : ℕ) (bytes : List ℕ)
    → length bytes ≤ a
    → length bytes ≤ b
    → within a bytes ≡ within b bytes
within_room a b bytes h k = ground (arith, h, k)

module _ {ℓ} {C : Type ℓ} (o : OpenSsl C) (laws : KeepsToLengths o) where
  add_tag_room :
      (ctx : C) (tag_len a b : ℕ) (ciphertext : List ℕ)
      → length ciphertext + tag_len ≤ a
      → length ciphertext + tag_len ≤ b
      → add_tag o ctx tag_len a ciphertext ≡ add_tag o ctx tag_len b ciphertext
  unfolding add_tag
  add_tag_room ctx tag_len a b ciphertext h k =
      let tag = o.get_tag ctx tag_len in
      let n = length-append ciphertext tag.1 in
      let same =
        within_room a b (ciphertext ++ tag.1) (omega (arith, h, n, laws.tags ctx tag_len))
          (omega (arith, k, n, laws.tags ctx tag_len)) in
      rw same refl

  seal_cut :
      (ctx : C) (tag_len : ℕ) (text : List ℕ) (n : ℕ)
      → tag_len ≤ 16
      → n < 2 ^ 31
      → length text ≡ 2 ^ 32 + n
      → seal o ctx tag_len text ≡ seal o ctx tag_len (take n text)
  unfolding seal
  seal_cut ctx tag_len text n small h e =
      let m : length (take n text) ≡ n = omega (arith, length-take n text, e) in
      let long : int_of_size (length text) ≡ pos n = ground (arith, e, h) in
      let short : int_of_size n ≡ pos n = ground (arith, h) in
      let written = o.encrypt_update ctx (take n text) (pos n) in
      let ended = o.encrypt_final written.2 in
      let a = (length text + tag_len) % 2 ^ 64 in
      let b = (n + tag_len) % 2 ^ 64 in
      let w = laws.writes ctx (take n text) n in
      let fits_a : length written.1 + tag_len ≤ a = omega (arith, w, small, h, e) in
      let fits_b : length written.1 + tag_len ≤ b = omega (arith, w, small, h) in
      let same = within_room a b written.1 (omega (arith, fits_a)) (omega (arith, fits_b)) in
      let tail = add_tag_room ended.2 tag_len a b written.1 fits_a fits_b in
      rw
        (
          m,
          long,
          short,
          laws.reads ctx text n,
          laws.ends written.2,
          append-nil written.1,
          same,
          tail,
        )
        refl

  evp_encrypt_cut :
      (mode : Mode) (k i tag_len : ℕ) (key iv text : List ℕ) (top n : ℕ)
      → tag_len ≤ 16
      → n < 2 ^ 31
      → length text ≡ 2 ^ 32 + n
      → evp_encrypt o mode k i tag_len key iv text top
        ≡ evp_encrypt o mode k i tag_len key iv (take n text) top
  unfolding evp_encrypt
  evp_encrypt_cut mode k i tag_len key iv text top n small h e =
      bind_cong (demand (length key == k)) _ _ λ a. bind_cong (demand (length iv == i)) _ _ λ b.
        bind_cong (demand (leb top 3)) _ _ λ c. bind_cong (managed o.ctx_new) _ _ λ ctx.
          bind_cong (demand (is_one (o.encrypt_init ctx mode).0)) _ _ λ d.
            bind_cong (demand (is_one (o.encrypt_key (o.encrypt_init ctx mode).1 key iv).0)) _ _
              λ f.
                seal_cut (o.encrypt_key (o.encrypt_init ctx mode).1 key iv).1 tag_len text n small h
                  e

-- Where OpenSSL keeps to the lengths that it is given, `encrypt` of a text of 2 ^ 32 + n bytes, for n
-- below 2 ^ 31, gives what it gives of the first n bytes of that text.
pub encrypt_cut {ℓ} :
    {C : Type ℓ} (o : OpenSsl C)
    → KeepsToLengths o
    → (mode : Mode) (key iv text : List ℕ) (top n : ℕ) → n < 2 ^ 31
    → length text ≡ 2 ^ 32 + n
    → encrypt o mode key iv text top ≡ encrypt o mode key iv (take n text) top
unfolding encrypt
encrypt_cut o laws mode key iv text top n h e =
    evp_encrypt_cut o laws mode (key_len_of mode) (iv_len_of mode) (tag_len_of mode) key iv text top
      n (tag_len_small mode) h e
