-- ===== src/Base64/Decode.antt =====
-- What `decode` accepts, what it skips, and how much it writes.
use mathlib.Core.Option
use mathlib.Core.Option.{some-injective}
use prosody.Base.{
  ℕ, zero, suc, ◌+◌, ◌-◌, ◌*◌, ◌≤◌, ◌<◌, ◌≡◌, refl, sym, fun_ext, subst, true, false, List, [], ◌∷◌,
  ◌++◌, none, some, length, length-append, get_or, ◌==◌, if◌then◌else◌, Bool-cases, Option-cases,
  arith, ap, ◌∙◌, inl, inr,
}
use prosody.Base64.{
  code, index_of, is_space, base64_decode, tuple_bytes, Decoder, pad, push_digit, step, decode_loop,
  decode,
}

-- The string without its white space.
pub strip : List ℕ → List ℕ
strip [] = []
strip (c ∷ s) = if is_space c then strip s else c ∷ strip s

space_not_nul : (c : ℕ) → is_space c ≡ true → ((c == 0) ≡ false) × ((c == b'=') ≡ false)
unfolding is_space
space_not_nul c h = ground arith

decode_loop-space :
    (c : ℕ) (s : List ℕ) (d : Decoder) → is_space c ≡ true → decode_loop (c ∷ s) d ≡ decode_loop s d
unfolding decode_loop step Option.bind
decode_loop-space c s d h = ground (arith, space_not_nul c h)

decode_loop_cong :
    (c : ℕ) (s s' : List ℕ) (d : Decoder)
    → ((d' : Decoder) → decode_loop s d' ≡ decode_loop s' d')
    → decode_loop (c ∷ s) d ≡ decode_loop (c ∷ s') d
unfolding decode_loop
decode_loop_cong c s s' d h =
    ap (λ f. if c == 0 then some d.out else Option.bind (step d c) f) (fun_ext h)

decode_loop-strip : (s : List ℕ) (d : Decoder) → decode_loop (strip s) d ≡ decode_loop s d
unfolding strip
decode_loop-strip [] d = refl
decode_loop-strip (c ∷ s) d = elim (Bool-cases (is_space c)) [
  | inl h ↦ rw h (decode_loop-strip s d ∙ sym (decode_loop-space c s d h))
  | inr h ↦ rw h (decode_loop_cong c (strip s) s d (decode_loop-strip s))
]

-- White space makes no difference to what `decode` gives, wherever it stands.
pub decode-strip : (s : List ℕ) → decode (strip s) ≡ decode s
unfolding decode
decode-strip s = decode_loop-strip s (record { t = []; out = [] })

-- What a decoder that has read `n` characters can hold: three bytes for four characters, those
-- that wait for their group included.
record IsWithin (n : ℕ) (d : Decoder) : Type 0 where
  waiting : length d.t < 4
  written : 4 * length d.out + 3 * length d.t ≤ 3 * n

length-tuple_bytes : (tuple n : ℕ) → length (tuple_bytes tuple n) ≤ n
unfolding tuple_bytes
length-tuple_bytes tuple zero = omega arith
length-tuple_bytes tuple (suc zero) = omega arith
length-tuple_bytes tuple (suc (suc zero)) = omega arith
length-tuple_bytes tuple (suc (suc (suc n))) = omega arith

length-base64_decode : (a b c d n : ℕ) → length (base64_decode a b c d n) ≤ n - 1
unfolding base64_decode
length-base64_decode a b c d n = length-tuple_bytes _ (n - 1)

pad-IsWithin : {n : ℕ} {d : Decoder} → IsWithin n d → IsWithin (n + 1) (pad d)
unfolding pad
pad-IsWithin {n} {d} w =
    let t0 = get_or d.t 0 0 in
    let t1 = get_or d.t 1 0 in
    let t2 = get_or d.t 2 0 in
    ground (
      arith,
      length-append d.out [],
      length-append d.out (base64_decode t0 0 0 0 1),
      length-append d.out (base64_decode t0 t1 0 0 2),
      length-append d.out (base64_decode t0 t1 t2 0 3),
      length-base64_decode t0 0 0 0 1,
      length-base64_decode t0 t1 0 0 2,
      length-base64_decode t0 t1 t2 0 3,
    )

push_digit-IsWithin :
    {n : ℕ} {d : Decoder} (x : ℕ) → IsWithin n d → IsWithin (n + 1) (push_digit d x)
unfolding push_digit
push_digit-IsWithin {n} {d} x w =
    let t = d.t ++ (x ∷ []) in
    let group = base64_decode (get_or t 0 0) (get_or t 1 0) (get_or t 2 0) (get_or t 3 0) 4 in
    ground (
      arith,
      length-append d.t (x ∷ []),
      length-append d.out group,
      length-base64_decode (get_or t 0 0) (get_or t 1 0) (get_or t 2 0) (get_or t 3 0) 4,
    )

step-IsWithin :
    {n : ℕ} {d d' : Decoder} (c : ℕ) → IsWithin n d → step d c ≡ some d' → IsWithin (n + 1) d'
unfolding step
step-IsWithin {n} {d} {d'} c w e = elim (Bool-cases (c == b'=')) [
  | inl h ↦ let q : pad d ≡ d' = ground arith in subst (IsWithin (n + 1)) q (pad-IsWithin w)
  | inr h ↦ elim (Bool-cases (is_space c)) [
    | inl k ↦ let q : d ≡ d' = ground arith in subst (IsWithin (n + 1)) q (omega (arith, w))
    | inr k ↦ elim (Option-cases (index_of code c)) [
      | inl o ↦ absurd (ground arith)
      | inr (x, o) ↦
          let q : push_digit d x ≡ d' = ground arith in
          subst (IsWithin (n + 1)) q (push_digit-IsWithin x w)
    ]
  ]
]

-- One round of the loop, by what the step gives.
pub decode_loop_nul :
    (s : List ℕ) (c : ℕ) (d : Decoder) → (c == 0) ≡ true → decode_loop (c ∷ s) d ≡ some d.out
unfolding decode_loop
decode_loop_nul s c d h = rw h

pub decode_loop-none :
    (s : List ℕ) (c : ℕ) (d : Decoder)
    → (c == 0) ≡ false
    → step d c ≡ none
    → decode_loop (c ∷ s) d ≡ none
unfolding decode_loop Option.bind
decode_loop-none s c d h e = rw (h, e)

pub decode_loop-some :
    (s : List ℕ) (c : ℕ) (d d' : Decoder)
    → (c == 0) ≡ false
    → step d c ≡ some d'
    → decode_loop (c ∷ s) d ≡ decode_loop s d'
unfolding decode_loop Option.bind
decode_loop-some s c d d' h e = rw (h, e)

decode_loop_bound :
    (s : List ℕ) (n : ℕ) (d : Decoder) (out : List ℕ)
    → IsWithin n d
    → decode_loop s d ≡ some out
    → 4 * length out ≤ 3 * (n + length s)
decode_loop_bound [] n d out w e =
    let q : d.out ≡ out = unfold decode_loop in some-injective _ _ e in
    omega (arith, ap length q, w)
decode_loop_bound (c ∷ s) n d out w e = elim (Bool-cases (c == 0)) [
  | inl h ↦
      let q : d.out ≡ out = some-injective _ _ (sym (decode_loop_nul s c d h) ∙ e) in
      omega (arith, ap length q, w)
  | inr h ↦ elim (Option-cases (step d c)) [
    | inl o ↦ absurd (ground (arith, decode_loop-none s c d h o))
    | inr (d', o) ↦ omega (
      arith,
      decode_loop_bound s (n + 1) d' out (step-IsWithin c w o)
          (sym (decode_loop-some s c d d' h o) ∙ e),
    )
  ]
]

-- What `decode` writes takes at most three bytes for four characters of its argument, so the
-- groups of four digits never overflow `t`.
pub decode_bound : (s : List ℕ) {out : List ℕ} → decode s ≡ some out → 4 * length out ≤ 3 * length s
unfolding decode
decode_bound s e =
    omega (arith, decode_loop_bound s 0 (record { t = []; out = [] }) _ (omega arith) e)
