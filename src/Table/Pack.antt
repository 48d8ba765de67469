-- ===== src/Table/Pack.antt =====
-- `Lpack`: the arguments at the keys from 1 on.
use prosody.Base.{
  ℕ, zero, suc, ◌≤◌, ◌<◌, ◌≡◌, ◌≢◌, ◌∙◌, refl, sym, ap, List, [], ◌∷◌, none, some, length,
  get_elem?, get_or, arith, ℕ_discrete, dec_lt,
}
use prosody.Base.Int.{ℤ, pos, negsuc, eq_ℤ_iff}
use prosody.Table.{LuaTable, rawset, pack_loop, pack}

module _ {ℓ} {A : Type ℓ} where
  value_at :
      (args : List A) (i : ℕ) (nil : A)
      → (elim (get_elem? args i) as (λ _. A) [ none ↦ nil | some v ↦ v ]) ≡ get_or args i nil
  value_at [] i nil = refl
  value_at (x ∷ args) zero nil = refl
  value_at (x ∷ args) (suc i) nil = value_at args i nil

  rest_nil : (args : List A) (i : ℕ) (nil : A) → length args ≤ i → get_or args i nil ≡ nil
  rest_nil [] i nil h = refl
  rest_nil (x ∷ args) zero nil h = absurd (omega arith)
  rest_nil (x ∷ args) (suc i) nil h = rest_nil args i nil (omega arith)

  -- The keys that the loop still stores hold the arguments; the others are left.
  pack_loop_lem :
      (n : ℕ) (args : List A) (nil : A) (m : LuaTable A)
      → ((i : ℕ) → i < n → pack_loop n args nil m (pos (suc i)) ≡ get_or args i nil)
        × ((k : ℤ) → ((i : ℕ) → i < n → k ≢ pos (suc i)) → pack_loop n args nil m k ≡ m k)
  unfolding pack_loop
  pack_loop_lem zero args nil m = (λ i h. absurd (omega arith), λ k h. refl)
  pack_loop_lem (suc n) args nil m =
      let v : A = elim (get_elem? args n) [ none ↦ nil | some v ↦ v ] in
      let stored = rawset m (pos (suc n)) v in
      let ih = pack_loop_lem n args nil stored in
      (
        λ i h. elim (ℕ_discrete n i) [
          | yes e ↦
              ap (λ j. pack_loop n args nil stored (pos (suc j))) (sym e)
              ∙ ih.1 (pos (suc n)) (λ j p q. ground (arith, q))
              ∙ rw ((eq_ℤ_iff (pos (suc n)) (pos (suc n))).1 refl) (value_at args n nil)
              ∙ ap (λ j. get_or args j nil) e
          | no ne ↦ ih.0 i (omega arith)
        ],
        λ k h.
            ih.1 k (λ i p. h i (omega arith))
            ∙ ground (arith, h n (omega arith), eq_ℤ_iff (pos (suc n)) k),
      )

  -- `Lpack` gives a table with the arguments at the keys from 1 on, in order, and nil at every other
  -- key, and their number.
  pub pack_lem :
      (args : List A) (nil : A)
      → ((i : ℕ) → (pack args nil).0 (pos (suc i)) ≡ get_or args i nil)
        × ((pack args nil).0 (pos 0) ≡ nil)
        × ((i : ℕ) → (pack args nil).0 (negsuc i) ≡ nil)
        × ((pack args nil).1 ≡ length args)
  unfolding pack
  pack_lem args nil =
      let n = length args in
      let l = pack_loop_lem n args nil (λ j. nil) in
      (
        λ i. elim (dec_lt i n) [
          | yes h ↦ l.0 i h
          | no h ↦
              l.1 (pos (suc i)) (λ j p q. ground (arith, q))
              ∙ sym (rest_nil args i nil (omega arith))
        ],
        l.1 (pos 0) (λ j p q. ground (arith, q)),
        λ i. l.1 (negsuc i) (λ j p q. ground (arith, q)),
        refl,
      )
