-- ===== src/Hashes.antt =====
-- util-src/hashes.c: `util.hashes`. The functions of OpenSSL are parameters. What a call tells of its
-- error is not kept: it is `raise`.
pub mod Hex
pub mod Release
pub mod Hkdf
pub mod Truncated
pub mod Equals
mod Tests
use prosody.Base.{
  ℕ, zero, suc, ◌+◌, ◌-◌, ◌*◌, ◌/◌, ◌%◌, ◌^◌, Bool, true, false, not, List, [], ◌∷◌, Option, none,
  some, length, get_elem?, set, take, replicate, ltb, ◌==◌, if◌then◌else◌, codes,
}
use prosody.Base.Int.{ℤ, pos, negsuc, leb_ℤ, eq_ℤ}
use prosody.Base.Word.{size_of_ℤ, int_of_size}
use prosody.Base.Lua.{Outcome, ret, raise, fault, ◌>>=◌}

-- The digests that the registered functions name.
pub data Digest : Type 0 where
  sha1 sha224 sha256 sha384 sha512 md5 sha3_256 sha3_512 blake2s256 blake2b512 : Digest

-- OpenSSL. `K` is its state; an EVP_MD, an EVP_MD_CTX and an EVP_PKEY_CTX are numbers, and `none` is
-- NULL. A digest or a derived key is given as the bytes that the call writes.
pub record Crypto {ℓ} (K : Type ℓ) : Type ℓ where
  pub evp_md : Digest → ℕ
  pub md_ctx_new : K → Option ℕ × K
  pub digest_init : K → ℕ → ℕ → Bool × K
  pub digest_update : K → ℕ → List ℕ → Bool × K
  pub digest_final : K → ℕ → Option (List ℕ) × K
  pub md_ctx_free : K → Option ℕ → K
  pub hmac : K → ℕ → List ℕ → ℤ → List ℕ → Option (List ℕ) × K
  pub pbkdf2_hmac : K → List ℕ → ℤ → List ℕ → ℤ → ℤ → ℕ → ℕ → Option (List ℕ) × K
  pub pkey_ctx_new : K → Option ℕ × K
  pub derive_init : K → Option ℕ → ℤ × K
  pub set_hkdf_md : K → Option ℕ → ℕ → ℤ × K
  pub set_hkdf_salt : K → Option ℕ → List ℕ → ℤ × K
  pub set_hkdf_key : K → Option ℕ → List ℕ → ℤ × K
  pub add_hkdf_info : K → Option ℕ → List ℕ → ℤ × K
  pub derive : K → Option ℕ → ℕ → ℤ × List ℕ × K
  pub memcmp : List ℕ → List ℕ → ℕ → ℤ

-- EVP_MAX_MD_SIZE
abbrev pub max_md_size : ℕ
max_md_size = 64

abbrev pub max_hkdf_output : ℕ
max_hkdf_output = 256

abbrev pub hex_tab : List ℕ
hex_tab = codes "0123456789abcdef"

-- `array[i]` and `array[i] = c`
abbrev pub read_at : List ℕ → ℕ → Outcome ℕ
read_at array i = elim (get_elem? array i) [ none ↦ fault | some c ↦ ret c ]

abbrev pub write_at : List ℕ → ℕ → ℕ → Outcome (List ℕ)
write_at array i c = if ltb i (length array) then ret (set array i c) else fault

-- The loop of `toHex`, from index `i` on with `left` rounds to go; `>> 4` is a division, `& 0xF` a
-- remainder.
pub to_hex_loop : ℕ → ℕ → List ℕ → List ℕ → Outcome (List ℕ)
to_hex_loop zero i input out = ret out
to_hex_loop (suc left) i input out = read_at input i >>= λ c.
    read_at hex_tab ((c / 16) % 16) >>= λ high. write_at out (i * 2) high >>= λ out1.
    read_at hex_tab (c % 16) >>= λ low.
    write_at out1 (i * 2 + 1) low >>= λ out2. to_hex_loop left (i + 1) input out2

pub to_hex : List ℕ → ℕ → List ℕ → Outcome (List ℕ)
to_hex input len out = to_hex_loop len 0 input out

-- The end of `Levp_hash` and `Levp_hmac`, on what the call wrote to `hash`. The bytes of `result` are
-- not set at first; here they are 0.
pub push_digest : List ℕ → Bool → Outcome (List ℕ)
push_digest hash hex_out =
    if ltb max_md_size (length hash)
    then fault
    else if hex_out
    then (to_hex hash (length hash) (replicate (max_md_size * 2) 0) >>= λ result.
        ret (take (length hash * 2) result))
    else ret hash

-- The end of `Levp_pbkdf2`, on what the call wrote to `out`.
pub push_key {ℓ} : {K : Type ℓ} → ℕ → Option (List ℕ) × K → Outcome (List ℕ) × K
push_key out_len made = elim made.0 [
  | none ↦ (raise, made.1)
  | some out ↦ (if ltb max_md_size (length out) then fault else ret (take out_len out), made.1)
]

-- `<= 0`
abbrev pub failed : ℤ → Bool
failed code = leb_ℤ code (pos 0)

module _ {ℓ} {K : Type ℓ} (crypto : Crypto K) where
  -- `fail:` of `Levp_hash`.
  pub hash_fail : K → Option ℕ → Outcome (List ℕ) × K
  hash_fail k ctx = (raise, crypto.md_ctx_free k ctx)

  pub evp_hash : K → ℕ → List ℕ → Bool → Outcome (List ℕ) × K
  evp_hash k evp s hex_out =
      let made = crypto.md_ctx_new k in
      elim made.0 [
        | none ↦ hash_fail made.1 none
        | some ctx ↦
            let begun = crypto.digest_init made.1 ctx evp in
            if not begun.0
            then hash_fail begun.1 (some ctx)
            else let fed = crypto.digest_update begun.1 ctx s in
              if not fed.0
              then hash_fail fed.1 (some ctx)
              else let ended = crypto.digest_final fed.1 ctx in
                elim ended.0 [
                  | none ↦ hash_fail ended.1 (some ctx)
                  | some hash ↦ (push_digest hash hex_out, crypto.md_ctx_free ended.1 (some ctx))
                ]
      ]

  -- `Lsha1` and so on.
  pub lhash : Digest → K → List ℕ → Bool → Outcome (List ℕ) × K
  lhash digest k s hex_out = evp_hash k (crypto.evp_md digest) s hex_out

  -- `HMAC` takes the length of the key as an `int`.
  pub evp_hmac : K → ℕ → List ℕ → List ℕ → Bool → Outcome (List ℕ) × K
  evp_hmac k evp key msg hex_out =
      let made = crypto.hmac k evp key (int_of_size (length key)) msg in
      elim made.0 [ none ↦ (raise, made.1) | some hash ↦ (push_digest hash hex_out, made.1) ]

  -- `Lhmac_sha1` and so on.
  pub lhmac : Digest → K → List ℕ → List ℕ → Bool → Outcome (List ℕ) × K
  lhmac digest k key msg hex_out = evp_hmac k (crypto.evp_md digest) key msg hex_out

  -- `iter` is a `lua_Integer` that is stored in an `int`; `out` has room for `max_md_size` bytes.
  pub evp_pbkdf2 : K → ℕ → ℕ → List ℕ → List ℕ → ℤ → Outcome (List ℕ) × K
  evp_pbkdf2 k evp out_len pass salt iter =
      let pass_len = int_of_size (length pass) in
      let salt_len = int_of_size (length salt) in
      let iterations = int_of_size (size_of_ℤ iter) in
      push_key out_len (crypto.pbkdf2_hmac k pass pass_len salt salt_len iterations evp out_len)

  pub pbkdf2_sha1 : K → List ℕ → List ℕ → ℤ → Outcome (List ℕ) × K
  pbkdf2_sha1 k pass salt iter = evp_pbkdf2 k (crypto.evp_md sha1) 20 pass salt iter

  pub pbkdf2_sha256 : K → List ℕ → List ℕ → ℤ → Outcome (List ℕ) × K
  pbkdf2_sha256 k pass salt iter = evp_pbkdf2 k (crypto.evp_md sha256) 32 pass salt iter

  -- `if(salt != NULL)`; 1 stands for that no call is made.
  pub give_salt : K → Option ℕ → Option (List ℕ) → ℤ × K
  give_salt k pctx none = (pos 1, k)
  give_salt k pctx (some salt) = crypto.set_hkdf_salt k pctx salt

  pub evp_hkdf : K → ℕ → ℤ → List ℕ → Option (List ℕ) → List ℕ → Outcome (List ℕ) × K
  evp_hkdf k evp wanted input salt info =
      if ltb max_hkdf_output (size_of_ℤ wanted)
      then (raise, k)
      else let made = crypto.pkey_ctx_new k in
        let begun = crypto.derive_init made.1 made.0 in
        if failed begun.0
        then (raise, begun.1)
        else let with_md = crypto.set_hkdf_md begun.1 made.0 evp in
          if failed with_md.0
          then (raise, with_md.1)
          else let salted = give_salt with_md.1 made.0 salt in
            if failed salted.0
            then (raise, salted.1)
            else let keyed = crypto.set_hkdf_key salted.1 made.0 input in
              if failed keyed.0
              then (raise, keyed.1)
              else let informed = crypto.add_hkdf_info keyed.1 made.0 info in
                if failed informed.0
                then (raise, informed.1)
                else let derived = crypto.derive informed.1 made.0 (size_of_ℤ wanted) in
                  if failed derived.0 then (raise, derived.2) else (
                    if ltb max_hkdf_output (length derived.1) then fault else ret derived.1,
                    derived.2,
                  )

  pub hkdf_sha256 : K → ℤ → List ℕ → Option (List ℕ) → List ℕ → Outcome (List ℕ) × K
  hkdf_sha256 k wanted input salt info = evp_hkdf k (crypto.evp_md sha256) wanted input salt info

  pub hkdf_sha384 : K → ℤ → List ℕ → Option (List ℕ) → List ℕ → Outcome (List ℕ) × K
  hkdf_sha384 k wanted input salt info = evp_hkdf k (crypto.evp_md sha384) wanted input salt info

  -- `Lhash_equals`
  pub hash_equals : List ℕ → List ℕ → Bool
  hash_equals s1 s2 =
      if length s1 == length s2 then eq_ℤ (crypto.memcmp s1 s2 (length s1)) (pos 0) else false
