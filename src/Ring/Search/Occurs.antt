-- ===== src/Ring/Search/Occurs.antt =====
-- The test of one round against the bytes held.
use prosody.Base.{
  ℕ, zero, suc, ◌+◌, ◌-◌, ◌≤◌, ◌<◌, ◌≡◌, refl, ◌↔◌, Bool, true, false, ◌&&◌, List, [], ◌∷◌, length,
  take, drop, tabulate, drop-tabulate, tabulate_ext, ◌==◌, arith, ap, ap₂, ◌∙◌,
}
use prosody.Base.Word.{add_size, size_mod}
use prosody.Ring.{Ring}
use prosody.Ring.Inv.{IsValid, byte_at, contents}
use prosody.Ring.Search.{at, rest_matches, matches}

-- `s` stands at offset `k` of `q`.
abbrev pub Occurs : List ℕ → List ℕ → ℕ → Type 0
Occurs q s k = take (length s) (drop k q) ≡ s

prefix : List ℕ → List ℕ → Bool
prefix [] q = true
prefix (c ∷ cs) [] = false
prefix (c ∷ cs) (x ∷ q) = x == c && prefix cs q

prefix_iff : (s q : List ℕ) → (prefix s q ≡ true) ↔ (take (length s) q ≡ s)
unfolding prefix
prefix_iff [] q = (λ h. refl, λ h. refl)
prefix_iff (c ∷ cs) [] = (λ h. cc, λ h. cc)
prefix_iff (c ∷ cs) (x ∷ q) = ground (arith, prefix_iff cs q)

module _ {b : Ring} (v : IsValid b) where
  rest_matches-prefix :
      (i j n : ℕ) (cs : List ℕ)
      → b.rpos + (i + j) + length cs < size_mod
      → length cs ≤ n
      → rest_matches b i j cs ≡ prefix cs (tabulate n (λ k. byte_at b (i + (j + k))))
  unfolding rest_matches prefix
  rest_matches-prefix i j n [] h k = refl
  rest_matches-prefix i j zero (c ∷ cs) h k = absurd (omega arith)
  rest_matches-prefix i j (suc n) (c ∷ cs) h k =
      ap₂ (λ x t. x == c && t) here
        (rest_matches-prefix i (j + 1) n cs (omega arith) (omega arith)
          ∙ ap (prefix cs) (tabulate_ext n _ _ next))
    where
      here : at b (add_size (add_size b.rpos i) j) ≡ byte_at b (i + (j + 0))
      here =
          let e : add_size (add_size b.rpos i) j ≡ b.rpos + (i + (j + 0)) = omega arith in
          ap (at b) e

      next : (m : ℕ) → m < n → byte_at b (i + (j + 1 + m)) ≡ byte_at b (i + (j + suc m))
      next m p = let e : i + (j + 1 + m) ≡ i + (j + suc m) = omega arith in ap (byte_at b) e

  -- The bytes from offset `i` on, of which there is at least one.
  drop-contents :
      (i n : ℕ)
      → b.blen - i ≡ suc n
      → drop i (contents b) ≡ byte_at b (i + 0) ∷ tabulate n (λ k. byte_at b (i + (1 + k)))
  drop-contents i n e =
      drop-tabulate i b.blen (byte_at b)
      ∙ ap (λ m. tabulate m (λ k. byte_at b (i + k))) e
      ∙ ap (λ xs. byte_at b (i + 0) ∷ xs) (tabulate_ext n _ _ next)
    where
      next : (k : ℕ) → k < n → byte_at b (i + suc k) ≡ byte_at b (i + (1 + k))
      next k p = let e' : i + suc k ≡ i + (1 + k) = omega arith in ap (byte_at b) e'

  matches-prefix :
      (c : ℕ) (cs : List ℕ) (i : ℕ)
      → i + length (c ∷ cs) ≤ b.blen
      → matches b (c ∷ cs) i ≡ prefix (c ∷ cs) (drop i (contents b))
  unfolding matches prefix
  matches-prefix c cs i h =
      let n = b.blen - i - 1 in
      rw (drop-contents i n (omega arith)) (
        ap₂ (λ x t. x == c && t) here
          (rest_matches-prefix i 1 n cs (omega (arith, v)) (omega arith)))
    where
      here : at b (add_size b.rpos i) ≡ byte_at b (i + 0)
      here = let e : add_size b.rpos i ≡ b.rpos + (i + 0) = omega (arith, v) in ap (at b) e

  -- Where the string fits behind offset `i`, the test finds out whether it stands there.
  pub matches_iff :
      (s : List ℕ) (i : ℕ)
      → 0 < length s
      → i + length s ≤ b.blen
      → (matches b s i ≡ true) ↔ Occurs (contents b) s i
  matches_iff [] i h k = absurd (omega arith)
  matches_iff (c ∷ cs) i h k =
      rw (matches-prefix c cs i k) (prefix_iff (c ∷ cs) (drop i (contents b)))
