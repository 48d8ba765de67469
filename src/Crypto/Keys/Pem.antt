-- ===== src/Crypto/Keys/Pem.antt =====
-- A private key that is written as PEM and read again.
use prosody.Base.{ℕ, ◌^◌, ◌<◌, ◌≡◌, refl, ◌∙◌, true, List, [], some, length, ltb, arith}
use prosody.Base.Int.{pos}
use prosody.Base.Word.{int_of_size}
use prosody.Base.Lua.{string, ret}
use prosody.Crypto.Evp.{Evp, Key, pkey_from_arg, push_pkey}
use prosody.Crypto.Keys.{imported, with_bio, import_private_pem, written, private_pem}

-- What OpenSSL does with PEM: `content` is what a BIO holds, `text` what a key is written as, and
-- `material` what a key is apart from the object that holds it.
pub record Pem {ℓ} {K : Type ℓ} (evp : Evp K) (content : K → ℕ → List ℕ) (text : ℕ → List ℕ)
    (material : ℕ → ℕ) : Type ℓ where
  pub begins_empty :
      (k : K) (bio : ℕ) → (evp.bio_new k).0 ≡ some bio → content (evp.bio_new k).1 bio ≡ []
  pub shows : (k : K) (bio : ℕ) → evp.bio_data k bio ≡ content k bio
  pub writes :
      (k : K) (bio pkey : ℕ)
      → content k bio ≡ []
      → ((evp.write_private k bio (some pkey)).0 ≡ true)
        × (content (evp.write_private k bio (some pkey)).1 bio ≡ text pkey)
  pub takes :
      (k : K) (bio : ℕ) (bytes : List ℕ)
      → content k bio ≡ []
      → content (evp.bio_write k bio bytes (pos (length bytes))) bio ≡ bytes
  pub reads :
      (k : K) (bio pkey : ℕ)
      → content k bio ≡ text pkey
      → (copy : ℕ) × ((evp.read_private k bio).0 ≡ some copy) × (material copy ≡ material pkey)
  pub some_text : (pkey : ℕ) → 0 < length (text pkey)
  pub short_text : (pkey : ℕ) → length (text pkey) < 2 ^ 31

module _ {ℓ} {K : Type ℓ} (evp : Evp K) (content : K → ℕ → List ℕ) (text : ℕ → List ℕ)
    (material : ℕ → ℕ) (pem : Pem evp content text material) where
  with_bio-made :
      {A : Type 0} (k : K) (bio : ℕ) (use_bio : ℕ → K → A × K)
      → (evp.bio_new k).0 ≡ some bio
      → (with_bio evp k use_bio).0 ≡ ret (use_bio bio (evp.bio_new k).1).0
  unfolding with_bio
  with_bio-made k bio use_bio made = rw (made, with_bio) refl

  private_pem_lem :
      (k : K) (key : Key) (pkey bio : ℕ)
      → key.pkey ≡ some pkey
      → key.is_private ≡ true
      → (evp.bio_new k).0 ≡ some bio
      → (private_pem evp k key).0 ≡ ret (string (text pkey))
  unfolding private_pem pkey_from_arg written
  private_pem_lem k key pkey bio holds is_private made =
      let done = pem.writes (evp.bio_new k).1 bio pkey (pem.begins_empty k bio made) in
      let shown : evp.bio_data (evp.write_private (evp.bio_new k).1 bio (some pkey)).1 bio
          ≡ text pkey =
        pem.shows _ bio ∙ done.1 in
      let full : ltb 0 (length (text pkey)) ≡ true = ground (arith, pem.some_text pkey) in
      rw (is_private, holds) (with_bio-made k bio _ made ∙ rw (done.0, shown, full) refl)

  import_private_pem_lem :
      (k : K) (pkey bio : ℕ)
      → (evp.bio_new k).0 ≡ some bio
      → (copy : ℕ) × ((import_private_pem evp k (text pkey)).0
          ≡ ret (some (push_pkey (some copy) (evp.pkey_id (some copy)) true)))
        × (material copy ≡ material pkey)
  unfolding import_private_pem imported
  import_private_pem_lem k pkey bio made =
      let int : int_of_size (length (text pkey)) ≡ pos (length (text pkey)) =
        ground (arith, pem.short_text pkey) in
      let held = pem.takes (evp.bio_new k).1 bio (text pkey) (pem.begins_empty k bio made) in
      let (copy, read, same) = pem.reads _ bio pkey held in
      (copy, with_bio-made k bio _ made ∙ rw (int, read) refl, same)

-- Over an OpenSSL that writes and reads PEM, and gives a BIO to both calls: `import_private_pem` of
-- what `private_pem` of a private key returned is a private key of the same material, whose type is
-- the one that OpenSSL has for it, whatever type the first had.
pub import-private_pem {ℓ} :
    {K : Type ℓ} (evp : Evp K) (content : K → ℕ → List ℕ) (text : ℕ → List ℕ) (material : ℕ → ℕ)
    → Pem evp content text material
    → (k k' : K) (key : Key) (pkey bio bio' : ℕ) → key.pkey ≡ some pkey
    → key.is_private ≡ true
    → (evp.bio_new k).0 ≡ some bio
    → (evp.bio_new k').0 ≡ some bio'
    → (bytes : List ℕ) × ((private_pem evp k key).0 ≡ ret (string bytes))
      × ((copy : ℕ) × ((import_private_pem evp k' bytes).0
            ≡ ret (some (push_pkey (some copy) (evp.pkey_id (some copy)) true)))
          × (material copy ≡ material pkey))
import-private_pem evp content text material pem k k' key pkey bio bio' holds is_private made
      made' =
    (
      text pkey,
      private_pem_lem evp content text material pem k key pkey bio holds is_private made,
      import_private_pem_lem evp content text material pem k' pkey bio' made',
    )
