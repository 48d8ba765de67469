-- ===== src/Hashes/Truncated.antt =====
-- The count of iterations that `Levp_pbkdf2` hands on.
use prosody.Base.{ℕ, ◌%◌, ◌^◌, ◌≡◌, refl, ap, List, length, arith}
use prosody.Base.Int.{ℤ, pos}
use prosody.Base.Word.{size_of_ℤ, int_of_size}
use prosody.Hashes.{Crypto, sha1, sha256, push_key, evp_pbkdf2, pbkdf2_sha1, pbkdf2_sha256}

int_of_size_cong : (a b : ℕ) → a % 2 ^ 32 ≡ b % 2 ^ 32 → int_of_size a ≡ int_of_size b
int_of_size_cong a b e = rw e refl

-- Counts of iterations that are equal modulo 2 ^ 32 derive one key: a count of 2 ^ 32 + 1 is taken for
-- a single iteration.
pub pbkdf2_cong {ℓ} :
    {K : Type ℓ} (crypto : Crypto K) (k : K) (pass salt : List ℕ) (a b : ℕ)
    → a % 2 ^ 32 ≡ b % 2 ^ 32
    → (pbkdf2_sha1 crypto k pass salt (pos a) ≡ pbkdf2_sha1 crypto k pass salt (pos b))
      × (pbkdf2_sha256 crypto k pass salt (pos a) ≡ pbkdf2_sha256 crypto k pass salt (pos b))
unfolding pbkdf2_sha1 pbkdf2_sha256 evp_pbkdf2
pbkdf2_cong crypto k pass salt a b e =
    let same : int_of_size (size_of_ℤ (pos a)) ≡ int_of_size (size_of_ℤ (pos b)) =
      int_of_size_cong (a % 2 ^ 64) (b % 2 ^ 64) (omega arith) in
    let pass_len = int_of_size (length pass) in
    let salt_len = int_of_size (length salt) in
    let derived = λ (evp n : ℕ) (i : ℤ).
      push_key n (crypto.pbkdf2_hmac k pass pass_len salt salt_len i evp n) in
    (ap (derived (crypto.evp_md sha1) 20) same, ap (derived (crypto.evp_md sha256) 32) same)
