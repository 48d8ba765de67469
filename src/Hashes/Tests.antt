-- ===== src/Hashes/Tests.antt =====
-- The hashes over a small OpenSSL, and the theorems at it.
use prosody.Base.{
  length-replicate, ℕ, zero, suc, ◌+◌, ◌-◌, ◌≤◌, ◌≡◌, ◌↔◌, refl, subst, ap, ap₂, inl, inr, true,
  false, List, [], ◌∷◌, Option, none, some, length, take, replicate, arith, ◌==◌, ==_iff,
  Bool-cases, if◌then◌else◌, codes,
}
use prosody.Base.Int.{ℤ, pos, negsuc}
use prosody.Base.Lua.{ret, raise}
use prosody.Hashes.{
  Crypto, sha1, to_hex, to_hex_loop, lhash, lhmac, evp_hash, evp_hkdf, push_digest,
}
use prosody.Hashes.Hex.{IsBytes, in_hex, lhash-hex}
use prosody.Hashes.Release.{CountsDigests, CountsKeys, evp_hash-held, evp_hkdf-held}
use prosody.Hashes.Hkdf.{Derives, evp_hkdf-length}

-- 0 where the first bytes are equal.
compare_bytes : List ℕ → List ℕ → ℕ → ℤ
compare_bytes a b zero = pos 0
compare_bytes [] b (suc n) = pos 0
compare_bytes (x ∷ a) [] (suc n) = pos 0
compare_bytes (x ∷ a) (y ∷ b) (suc n) =
    let rest = compare_bytes a b n in if x == y then rest else pos 1

-- An OpenSSL whose state is the number of contexts that are held. Each digest is the bytes 1 and 171.
abbrev small : Crypto ℕ
small = record {
  evp_md = λ digest. 0;
  md_ctx_new = λ k. (some 7, k + 1);
  digest_init = λ k ctx evp. (true, k);
  digest_update = λ k ctx s. (true, k);
  digest_final = λ k ctx. (some (1 ∷ 171 ∷ []), k);
  md_ctx_free = λ k ctx. release k ctx;
  hmac = λ k evp key len msg. (some (16 ∷ []), k);
  pbkdf2_hmac = λ k pass pass_len salt salt_len iter evp n. (some (replicate n 5), k);
  pkey_ctx_new = λ k. (some 9, k + 1);
  derive_init = λ k ctx. (pos 1, k);
  set_hkdf_md = λ k ctx evp. (pos 1, k);
  set_hkdf_salt = λ k ctx s. (pos 1, k);
  set_hkdf_key = λ k ctx s. (pos 1, k);
  add_hkdf_info = λ k ctx s. (pos 1, k);
  derive = λ k ctx n. (pos 1, replicate n 3, k);
  memcmp = compare_bytes;
}
  where
    release : ℕ → Option ℕ → ℕ
    release k none = k
    release k (some ctx) = k - 1

hex_result : lhash small sha1 0 [] true ≡ (ret (codes "01ab"), 0)
unfolding lhash evp_hash push_digest to_hex to_hex_loop
hex_result = refl

bytes_of : {a b : List ℕ} → some a ≡ some b → a ≡ b
bytes_of e = ap (λ o. elim o [ none ↦ [] | some s ↦ s ]) e

final-IsBytes :
    (k ctx : ℕ) (hash : List ℕ) → (small.digest_final k ctx).0 ≡ some hash → IsBytes hash
final-IsBytes k ctx hash e = subst IsBytes (bytes_of e) (omega arith, (omega arith, tt))

hmac-IsBytes :
    (k evp : ℕ) (key : List ℕ) (len : ℤ) (msg hash : List ℕ)
    → (small.hmac k evp key len msg).0 ≡ some hash
    → IsBytes hash
hmac-IsBytes k evp key len msg hash e = subst IsBytes (bytes_of e) (omega arith, tt)

small-CountsDigests : CountsDigests small (λ k. k)
small-CountsDigests = record {
  made = λ k ctx e. refl;
  not_made = λ k e. ground (arith, e);
  begun = λ k ctx evp. refl;
  fed = λ k ctx s. refl;
  ended = λ k ctx. refl;
  freed = λ k ctx h. omega arith;
  null_freed = λ k. refl;
}

small-CountsKeys : CountsKeys small (λ k. k)
small-CountsKeys = record {
  made = λ k ctx e. refl;
  begun = λ k ctx. refl;
  with_md = λ k ctx evp. refl;
  salted = λ k ctx s. refl;
  keyed = λ k ctx s. refl;
  informed = λ k ctx s. refl;
  derived = λ k ctx n. refl;
}

small-Derives : Derives small
small-Derives = record {
  ctx = λ k. 9;
  made = λ k. refl;
  begun = λ k c. refl;
  with_md = λ k c evp. refl;
  salted = λ k c s. refl;
  keyed = λ k c s. refl;
  informed = λ k c s. refl;
  derived = λ k c n. refl;
  size = λ k c n. length-replicate n 3;
}

compare_bytes_iff :
    (a b : List ℕ) (n : ℕ)
    → n ≤ length a
    → n ≤ length b
    → (compare_bytes a b n ≡ pos 0) ↔ (take n a ≡ take n b)
unfolding compare_bytes
compare_bytes_iff a b zero h k = (λ e. refl, λ e. refl)
compare_bytes_iff [] b (suc n) h k = absurd (omega arith)
compare_bytes_iff (x ∷ a) [] (suc n) h k = absurd (omega arith)
compare_bytes_iff (x ∷ a) (y ∷ b) (suc n) h k =
    let rest = compare_bytes_iff a b n (omega arith) (omega arith) in
    elim (Bool-cases (x == y)) [
      | inl e ↦
          let same = (==_iff x y).0 e in
          (λ h'. ap₂ ◌∷◌ same (rest.0 (ground (arith, e, h'))), λ h'. rw e (rest.1 (ap tail_of h')))
      | inr e ↦
          (λ h'. absurd (ground (arith, e, h')), λ h'. absurd (ground (arith, e, ap head_of h')))
    ]
  where
    tail_of : List ℕ → List ℕ
    tail_of [] = []
    tail_of (c ∷ r) = r

    head_of : List ℕ → ℕ
    head_of [] = 0
    head_of (c ∷ r) = c

lhash-hex_example :
    (lhash small sha1 0 (65 ∷ []) true ≡ in_hex (lhash small sha1 0 (65 ∷ []) false))
    × (lhmac small sha1 0 (1 ∷ []) (65 ∷ []) true
        ≡ in_hex (lhmac small sha1 0 (1 ∷ []) (65 ∷ []) false))
lhash-hex_example = lhash-hex small final-IsBytes hmac-IsBytes sha1 0 (1 ∷ []) (65 ∷ [])

evp_hash-held_example : (evp_hash small 3 0 (65 ∷ []) true).1 ≡ 3
evp_hash-held_example = evp_hash-held small (λ k. k) small-CountsDigests 3 0 (65 ∷ []) true

evp_hkdf-held_example : (evp_hkdf small 3 0 (pos 4) [] none []).1 ≡ 4
evp_hkdf-held_example =
    evp_hkdf-held small (λ k. k) small-CountsKeys 3 0 9 (pos 4) [] none [] (omega arith) refl

evp_hkdf-length_example :
    ((out : List ℕ) × ((evp_hkdf small 3 0 (pos 4) [] none []).0 ≡ ret out) × (length out ≡ 4))
    × (evp_hkdf small 3 0 (negsuc 0) [] none [] ≡ (raise, 3))
evp_hkdf-length_example =
    evp_hkdf-length small 3 0 4 (negsuc 0) small-Derives [] none [] (omega arith) (omega arith)
      (omega arith) (inl (omega arith))
