-- ===== src/Hashes/Equals.antt =====
-- `Lhash_equals` compares the whole strings.
use prosody.Base.{
  take_all, ℕ, ◌≤◌, ◌≡◌, ◌↔◌, refl, sym, ap, ◌∙◌, inl, inr, true, List, length, take, arith, ◌==◌,
  ==_iff, Bool-cases,
}
use prosody.Base.Int.{pos, eq_ℤ, eq_ℤ_iff}
use prosody.Hashes.{Crypto, hash_equals}

-- `equals` is true for equal strings only, and for them always, where CRYPTO_memcmp gives 0 exactly
-- for memory with the same contents.
pub hash_equals_iff {ℓ} :
    {K : Type ℓ} (crypto : Crypto K)
    → ((a b : List ℕ) (n : ℕ)
        → n ≤ length a
        → n ≤ length b
        → (crypto.memcmp a b n ≡ pos 0) ↔ (take n a ≡ take n b))
    → (s1 s2 : List ℕ) → (hash_equals crypto s1 s2 ≡ true) ↔ (s1 ≡ s2)
unfolding hash_equals
hash_equals_iff crypto compares s1 s2 = elim (Bool-cases (length s1 == length s2)) [
  | inr e ↦ (λ h. ground (arith, e, h), λ h. absurd (ground (arith, e, ap length h)))
  | inl e ↦
      let same = (==_iff _ _).0 e in
      let whole = compares s1 s2 (length s1) (omega arith) (omega arith) in
      let zero_iff = eq_ℤ_iff (crypto.memcmp s1 s2 (length s1)) (pos 0) in
      let compared : hash_equals crypto s1 s2 ≡ eq_ℤ (crypto.memcmp s1 s2 (length s1)) (pos 0) =
        rw (e, hash_equals) refl in
      let ends : take (length s1) s2 ≡ s2 = take_all s2 (length s1) (sym same) in
      (
        λ h. sym (take_all s1 (length s1) refl) ∙ whole.0 (zero_iff.0 (sym compared ∙ h)) ∙ ends,
        λ h. compared ∙ zero_iff.1 (whole.1 (take_all s1 (length s1) refl ∙ h ∙ sym ends)),
      )
]
