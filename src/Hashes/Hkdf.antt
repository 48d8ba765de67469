-- ===== src/Hashes/Hkdf.antt =====
-- The length that `Levp_hkdf` derives.
use prosody.Base.{
  ℕ, ◌^◌, ◌-◌, ◌≤◌, ◌≡◌, ◌⊎◌, refl, true, false, List, Option, none, some, length, arith, ltb,
}
use prosody.Base.Int.{ℤ, pos, negsuc, ◌≤ℤ◌, ◌<ℤ◌}
use prosody.Base.Word.{size_of_ℤ}
use prosody.Base.Lua.{ret, raise}
use prosody.Hashes.{Crypto, max_hkdf_output, give_salt, failed, evp_hkdf}

-- OpenSSL at work: no call on a context fails, and as many bytes are derived as are asked for.
pub record Derives {ℓ} {K : Type ℓ} (crypto : Crypto K) : Type ℓ where
  pub ctx : K → ℕ
  pub made : (k : K) → (crypto.pkey_ctx_new k).0 ≡ some (ctx k)
  pub begun : (k : K) (c : ℕ) → failed (crypto.derive_init k (some c)).0 ≡ false
  pub with_md : (k : K) (c evp : ℕ) → failed (crypto.set_hkdf_md k (some c) evp).0 ≡ false
  pub salted : (k : K) (c : ℕ) (s : List ℕ) → failed (crypto.set_hkdf_salt k (some c) s).0 ≡ false
  pub keyed : (k : K) (c : ℕ) (s : List ℕ) → failed (crypto.set_hkdf_key k (some c) s).0 ≡ false
  pub informed : (k : K) (c : ℕ) (s : List ℕ) → failed (crypto.add_hkdf_info k (some c) s).0 ≡ false
  pub derived : (k : K) (c n : ℕ) → failed (crypto.derive k (some c) n).0 ≡ false
  pub size : (k : K) (c n : ℕ) → length (crypto.derive k (some c) n).1 ≡ n

give_salt-Derives {ℓ} :
    {K : Type ℓ} (crypto : Crypto K)
    → Derives crypto
    → (k : K) (c : ℕ) (salt : Option (List ℕ)) → failed (give_salt crypto k (some c) salt).0 ≡ false
unfolding give_salt
give_salt-Derives crypto works k c none = refl
give_salt-Derives crypto works k c (some salt) = works.salted k c salt

-- Where OpenSSL does its work, a length from 0 to 256 gives as many bytes, with and without a salt. A
-- length that is negative or above 256 raises an error before OpenSSL is called.
pub evp_hkdf-length {ℓ} :
    {K : Type ℓ} (crypto : Crypto K) (k : K) (evp n : ℕ) (refused : ℤ)
    → Derives crypto
    → (input : List ℕ) (salt : Option (List ℕ)) (info : List ℕ) → n ≤ max_hkdf_output
    → negsuc (2 ^ 63 - 1) ≤ℤ refused
    → refused ≤ℤ pos (2 ^ 63 - 1)
    → (refused <ℤ pos 0) ⊎ (pos max_hkdf_output <ℤ refused)
    → ((out : List ℕ) × ((evp_hkdf crypto k evp (pos n) input salt info).0 ≡ ret out)
        × (length out ≡ n))
      × (evp_hkdf crypto k evp refused input salt info ≡ (raise, k))
unfolding evp_hkdf
evp_hkdf-length crypto k evp n refused works input salt info small low high outside =
    let c = works.ctx k in
    let made = crypto.pkey_ctx_new k in
    let begun = crypto.derive_init made.1 (some c) in
    let with_md = crypto.set_hkdf_md begun.1 (some c) evp in
    let salted = give_salt crypto with_md.1 (some c) salt in
    let keyed = crypto.set_hkdf_key salted.1 (some c) input in
    let informed = crypto.add_hkdf_info keyed.1 (some c) info in
    let derived = crypto.derive informed.1 (some c) n in
    let size = works.size informed.1 c n in
    let kept : size_of_ℤ (pos n) ≡ n = omega arith in
    let within : ltb max_hkdf_output n ≡ false = ground arith in
    let fits : ltb max_hkdf_output (length derived.1) ≡ false = ground (arith, size) in
    let above : ltb max_hkdf_output (size_of_ℤ refused) ≡ true = ground arith in
    (
      (
        derived.1,
        rw
            (
              kept,
              within,
              works.made k,
              works.begun made.1 c,
              works.with_md begun.1 c evp,
              give_salt-Derives crypto works with_md.1 c salt,
              works.keyed salted.1 c input,
              works.informed keyed.1 c info,
              works.derived informed.1 c n,
              fits,
              evp_hkdf,
            )
            refl,
        size,
      ),
      rw (above, evp_hkdf) refl,
    )
