-- ===== src/Hashes/Hex.antt =====
-- What `toHex` writes, and what it makes of a digest.
use mathlib.Core.List.{append_assoc}
use prosody.Base.{
  take-append, ℕ, zero, suc, ◌+◌, ◌*◌, ◌/◌, ◌%◌, ◌≤◌, ◌<◌, ◌≡◌, ◌∙◌, refl, sym, ap, inl, inr, true,
  false, List, [], ◌∷◌, ◌++◌, Option, none, some, Option-cases, Bool-cases, length, length-append,
  get_elem?-eq-get_or, get_or, ◌==◌, ==_iff, set, drop, replicate, ltb, lt→ltb, if◌then◌else◌, All,
  arith, passes_below, test_of_passes_below,
}
use prosody.Base.Int.{ℤ}
use prosody.Base.Lua.{Outcome, ret, ◌>>=◌}
use prosody.Base.Word.{int_of_size}
use prosody.Hashes.{
  Digest, Crypto, max_md_size, hex_tab, read_at, write_at, to_hex_loop, to_hex, push_digest,
  hash_fail, evp_hash, lhash, evp_hmac, lhmac,
}

-- The lower-case hexadecimal digit of a number below 16, as ASCII.
abbrev pub hex_digit : ℕ → ℕ
hex_digit n = if ltb n 10 then 48 + n else 87 + n

abbrev pub hex_of : List ℕ → List ℕ
hex_of [] = []
hex_of (c ∷ rest) = hex_digit (c / 16) ∷ hex_digit (c % 16) ∷ hex_of rest

-- A result in hexadecimal digits.
abbrev pub in_hex {ℓ} : {K : Type ℓ} → Outcome (List ℕ) × K → Outcome (List ℕ) × K
in_hex done = (done.0 >>= λ raw. ret (hex_of raw), done.1)

abbrev pub IsBytes : List ℕ → Type 0
IsBytes s = All (λ c. c < 256) s

checked_digits : passes_below (λ m. get_or hex_tab m 0 == hex_digit m) 16 ≡ true
unfolding passes_below
checked_digits = refl

read_at-hex_tab : (n : ℕ) → n < 16 → read_at hex_tab n ≡ ret (hex_digit n)
read_at-hex_tab n h =
    let same =
      (==_iff _ _).0
        (test_of_passes_below (λ m. get_or hex_tab m 0 == hex_digit m) 16 n h checked_digits) in
    rw (get_elem?-eq-get_or hex_tab n 0 h, same) refl

pub length-hex_of : (s : List ℕ) → length (hex_of s) ≡ length s * 2
length-hex_of [] = omega arith
length-hex_of (c ∷ rest) = omega (arith, length-hex_of rest)

read_at-append :
    (xs : List ℕ) (c : ℕ) (ys : List ℕ) (i : ℕ) → i ≡ length xs → read_at (xs ++ (c ∷ ys)) i ≡ ret c
read_at-append [] c ys zero h = refl
read_at-append [] c ys (suc i) h = absurd (omega arith)
read_at-append (x ∷ xs) c ys zero h = absurd (omega arith)
read_at-append (x ∷ xs) c ys (suc i) h = read_at-append xs c ys i (omega arith)

set-append :
    (xs : List ℕ) (b c : ℕ) (ys : List ℕ) (i : ℕ)
    → i ≡ length xs
    → set (xs ++ (b ∷ ys)) i c ≡ xs ++ (c ∷ ys)
set-append [] b c ys zero h = refl
set-append [] b c ys (suc i) h = absurd (omega arith)
set-append (x ∷ xs) b c ys zero h = absurd (omega arith)
set-append (x ∷ xs) b c ys (suc i) h = ap (λ r. x ∷ r) (set-append xs b c ys i (omega arith))

write_at-append :
    (xs : List ℕ) (b c : ℕ) (ys : List ℕ) (i : ℕ)
    → i ≡ length xs
    → write_at (xs ++ (b ∷ ys)) i c ≡ ret (xs ++ (c ∷ ys))
write_at-append xs b c ys i h =
    let inside : ltb i (length (xs ++ (b ∷ ys))) ≡ true =
      lt→ltb _ _ (omega (arith, length-append xs (b ∷ ys))) in
    rw (inside, set-append xs b c ys i h) refl

-- One round: two characters behind those that are there.
round :
    (left : ℕ) (before rest written : List ℕ) (c x y : ℕ) (room : List ℕ)
    → c < 256
    → length written ≡ length before * 2
    → to_hex_loop (suc left) (length before) (before ++ (c ∷ rest)) (written ++ (x ∷ y ∷ room))
      ≡ to_hex_loop left
          (length before + 1)
          (before ++ (c ∷ rest))
          ((written ++ (hex_digit (c / 16) ∷ [])) ++ (hex_digit (c % 16) ∷ room))
unfolding to_hex_loop
round left before rest written c x y room h l =
    let high = hex_digit (c / 16) in
    let small : (c / 16) % 16 ≡ c / 16 = omega arith in
    rw
      (
        read_at-append before c rest (length before) refl,
        small,
        read_at-hex_tab (c / 16) (omega arith),
        write_at-append written x high (y ∷ room) (length before * 2) (omega arith),
        read_at-hex_tab (c % 16) (omega arith),
        sym (append_assoc written (high ∷ []) (y ∷ room)),
        write_at-append (written ++ (high ∷ [])) y (hex_digit (c % 16)) room (length before * 2 + 1)
            (omega (arith, length-append written (high ∷ []))),
      )
      refl

to_hex_loop_lem :
    (before rest written room : List ℕ)
    → IsBytes rest
    → length written ≡ length before * 2
    → length rest * 2 ≤ length room
    → to_hex_loop (length rest) (length before) (before ++ rest) (written ++ room)
      ≡ ret (written ++ (hex_of rest ++ drop (length rest * 2) room))
to_hex_loop_lem before [] written room h l p = unfold to_hex_loop in refl
to_hex_loop_lem before (c ∷ rest) written [] h l p = absurd (omega arith)
to_hex_loop_lem before (c ∷ rest) written (x ∷ []) h l p = absurd (omega arith)
to_hex_loop_lem before (c ∷ rest) written (x ∷ y ∷ room) h l p =
    let high = hex_digit (c / 16) in
    let low = hex_digit (c % 16) in
    let counted : length before + 1 ≡ length (before ++ (c ∷ [])) =
      omega (arith, length-append before (c ∷ [])) in
    let twice : suc (length rest) * 2 ≡ suc (suc (length rest * 2)) = omega arith in
    let behind = hex_of rest ++ drop (length rest * 2) room in
    let ended : ret ((written ++ (high ∷ low ∷ [])) ++ behind)
        ≡ ret (written ++ (hex_of (c ∷ rest) ++ drop (suc (length rest) * 2) (x ∷ y ∷ room))) =
      rw twice (ap ret (append_assoc written (high ∷ low ∷ []) behind)) in
    let rounds =
      to_hex_loop_lem (before ++ (c ∷ [])) rest (written ++ (high ∷ low ∷ [])) room h.1
        (omega (arith, length-append before (c ∷ []), length-append written (high ∷ low ∷ [])))
        (omega arith) in
    round (length rest) before rest written c x y room h.0 l
    ∙ rw
        (
          counted,
          sym (append_assoc before (c ∷ []) rest),
          append_assoc written (high ∷ []) (low ∷ room),
          sym (append_assoc written (high ∷ low ∷ []) room),
        )
        rounds
    ∙ ended

push_digest-hex :
    (hash : List ℕ)
    → IsBytes hash
    → push_digest hash true ≡ (push_digest hash false >>= λ raw. ret (hex_of raw))
unfolding push_digest to_hex
push_digest-hex hash h = elim (Bool-cases (ltb max_md_size (length hash))) [
  | inl e ↦ rw e refl
  | inr e ↦
      let fits : length hash * 2 ≤ 128 = ground (arith, e) in
      rw
        (
          e,
          to_hex_loop_lem [] hash [] (replicate (max_md_size * 2) 0) h refl (omega arith),
          take-append (hex_of hash) (drop (length hash * 2) (replicate 128 0)) (length hash * 2)
              (length-hex_of hash),
        )
        refl
]

module _ {ℓ} {K : Type ℓ} (crypto : Crypto K) where
  -- The end of `Levp_hash`, from the result of the last call on.
  tail-hex :
      (o : Option (List ℕ)) (k : K) (ctx : ℕ)
      → ((hash : List ℕ) → o ≡ some hash → IsBytes hash)
      → (elim o [
        | none ↦ hash_fail crypto k (some ctx)
        | some hash ↦ (push_digest hash true, crypto.md_ctx_free k (some ctx))
      ])
        ≡ in_hex (elim o [
          | none ↦ hash_fail crypto k (some ctx)
          | some hash ↦ (push_digest hash false, crypto.md_ctx_free k (some ctx))
        ])
  unfolding hash_fail
  tail-hex none k ctx bytes = refl
  tail-hex (some hash) k ctx bytes = rw (push_digest-hex hash (bytes hash refl)) refl

-- A hexadecimal result, asked for by the last argument, is the plain result of the same call in
-- lower-case hexadecimal digits, two for each byte, for the digests and the HMACs of all kinds: where
-- one call returns, raises or leaves OpenSSL's state changed, so does the other. OpenSSL gives bytes.
pub lhash-hex {ℓ} :
    {K : Type ℓ} (crypto : Crypto K)
    → ((k : K) (ctx : ℕ) (hash : List ℕ) → (crypto.digest_final k ctx).0 ≡ some hash → IsBytes hash)
    → ((k : K) (evp : ℕ) (key : List ℕ) (len : ℤ) (msg hash : List ℕ)
        → (crypto.hmac k evp key len msg).0 ≡ some hash
        → IsBytes hash)
    → (digest : Digest) (k : K) (key s : List ℕ)
    → (lhash crypto digest k s true ≡ in_hex (lhash crypto digest k s false))
      × (lhmac crypto digest k key s true ≡ in_hex (lhmac crypto digest k key s false))
unfolding lhash evp_hash lhmac evp_hmac hash_fail
lhash-hex crypto final_bytes hmac_bytes digest k key s =
    let made = crypto.md_ctx_new k in
    let authenticated = crypto.hmac k (crypto.evp_md digest) key (int_of_size (length key)) s in
    (
      elim (Option-cases made.0) [
        | inl none_made ↦ rw (none_made, evp_hash) refl
        | inr (ctx, some_made) ↦
            let begun = crypto.digest_init made.1 ctx (crypto.evp_md digest) in
            let fed = crypto.digest_update begun.1 ctx s in
            let ended = crypto.digest_final fed.1 ctx in
            let tail = tail-hex crypto ended.0 ended.1 ctx (final_bytes fed.1 ctx) in
            elim (Bool-cases begun.0) [
              | inr e ↦ rw (some_made, e, evp_hash) refl
              | inl e ↦ elim (Bool-cases fed.0) [
                | inr e' ↦ rw (some_made, e, e', evp_hash) refl
                | inl e' ↦ rw (some_made, e, e', evp_hash) tail
              ]
            ]
      ],
      elim (Option-cases authenticated.0) [
        | inl e ↦ rw (e, evp_hmac) refl
        | inr (hash, e) ↦ rw (e, push_digest-hex hash (hmac_bytes _ _ _ _ _ hash e), evp_hmac) refl
      ],
    )
