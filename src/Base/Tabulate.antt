-- ===== src/Base/Tabulate.antt =====
-- The list of the values of a function below a bound: the common form to which slices of
-- arrays are brought.
use Prim.Native.Nat.{ℕ, zero, suc, ◌+◌, ◌-◌, ◌≤◌, ◌<◌}
use mathlib.Core.Path.{◌≡◌, refl, ap, ap₂, ◌∙◌}
use mathlib.Core.List.{List, [], ◌∷◌, ◌++◌}
use native.Mathlib.Omega.{arith}
use prosody.Base.Lists.{length, get_or, take, drop}

module _ {ℓ} {A : Type ℓ} where
  abbrev pub tabulate : ℕ → (ℕ → A) → List A
  tabulate zero f = []
  tabulate (suc n) f = f 0 ∷ tabulate n (λ i. f (suc i))

  pub length-tabulate : (n : ℕ) (f : ℕ → A) → length (tabulate n f) ≡ n
  length-tabulate zero f = refl
  length-tabulate (suc n) f = ap suc (length-tabulate n (λ i. f (suc i)))

  pub tabulate_ext :
      (n : ℕ) (f g : ℕ → A) → ((i : ℕ) → i < n → f i ≡ g i) → tabulate n f ≡ tabulate n g
  tabulate_ext zero f g h = refl
  tabulate_ext (suc n) f g h =
      ap₂ ◌∷◌ (h 0 (omega arith))
        (tabulate_ext n (λ i. f (suc i)) (λ i. g (suc i)) (λ i p. h (suc i) (omega arith)))

  pub tabulate_cong :
      (n m : ℕ) (f g : ℕ → A) → n ≡ m → ((i : ℕ) → i < n → f i ≡ g i) → tabulate n f ≡ tabulate m g
  tabulate_cong n m f g e h = tabulate_ext n f g h ∙ ap (λ k. tabulate k g) e

  pub get_or-tabulate :
      (n : ℕ) (f : ℕ → A) (i : ℕ) (d : A) → i < n → get_or (tabulate n f) i d ≡ f i
  get_or-tabulate zero f i d h = absurd (omega arith)
  get_or-tabulate (suc n) f zero d h = refl
  get_or-tabulate (suc n) f (suc i) d h = get_or-tabulate n (λ j. f (suc j)) i d (omega arith)

  pub take-tabulate : (r n : ℕ) (f : ℕ → A) → r ≤ n → take r (tabulate n f) ≡ tabulate r f
  take-tabulate zero n f h = refl
  take-tabulate (suc r) zero f h = absurd (omega arith)
  take-tabulate (suc r) (suc n) f h =
      ap (λ xs. f 0 ∷ xs) (take-tabulate r n (λ i. f (suc i)) (omega arith))

  pub tabulate-append :
      (n m : ℕ) (f : ℕ → A) → tabulate (n + m) f ≡ tabulate n f ++ tabulate m (λ i. f (n + i))
  tabulate-append zero m f =
      tabulate_cong (0 + m) m f (λ i. f (0 + i)) (omega arith)
        (λ i h. let e : i ≡ 0 + i = omega arith in ap f e)
  tabulate-append (suc n) m f =
      tabulate_cong (suc n + m) (suc (n + m)) f f (omega arith) (λ i h. refl)
      ∙ ap (λ xs. f 0 ∷ xs) (tabulate-append n m (λ i. f (suc i)) ∙ shifted)
    where
      shifted :
          tabulate n (λ i. f (suc i)) ++ tabulate m (λ i. f (suc (n + i)))
          ≡ tabulate n (λ i. f (suc i)) ++ tabulate m (λ i. f (suc n + i))
      shifted =
          ap (λ ys. tabulate n (λ i. f (suc i)) ++ ys)
            (tabulate_ext m _ _ (λ i h. let e : suc (n + i) ≡ suc n + i = omega arith in ap f e))

  pub drop-tabulate :
      (r n : ℕ) (f : ℕ → A) → drop r (tabulate n f) ≡ tabulate (n - r) (λ i. f (r + i))
  drop-tabulate zero n f =
      tabulate_cong n (n - 0) f (λ i. f (0 + i)) (omega arith)
        (λ i h. let e : i ≡ 0 + i = omega arith in ap f e)
  drop-tabulate (suc r) zero f =
      tabulate_cong 0 (0 - suc r) (λ i. f (suc r + i)) (λ i. f (suc r + i)) (omega arith)
        (λ i h. refl)
  drop-tabulate (suc r) (suc n) f =
      drop-tabulate r n (λ i. f (suc i))
      ∙ tabulate_cong (n - r) (suc n - suc r) _ _ (omega arith)
          (λ i h. let e : suc (r + i) ≡ suc r + i = omega arith in ap f e)

  -- The `n` elements of an array from index `p` on.
  pub take-drop-tabulate :
      (xs : List A) (p n : ℕ) (d : A)
      → p + n ≤ length xs
      → take n (drop p xs) ≡ tabulate n (λ i. get_or xs (p + i) d)
  take-drop-tabulate xs zero zero d h = refl
  take-drop-tabulate [] zero (suc n) d h = absurd (omega arith)
  take-drop-tabulate (x ∷ xs) zero (suc n) d h =
      ap (λ ys. x ∷ ys)
        (take-drop-tabulate xs zero n d (omega arith)
          ∙ tabulate_ext n _ _ (λ i q.
            let e : suc (0 + i) ≡ 0 + suc i = omega arith in ap (λ k. get_or (x ∷ xs) k d) e))
  take-drop-tabulate [] (suc p) zero d h = refl
  take-drop-tabulate [] (suc p) (suc n) d h = absurd (omega arith)
  take-drop-tabulate (x ∷ xs) (suc p) n d h =
      take-drop-tabulate xs p n d (omega arith)
      ∙ tabulate_ext n _ _
          (λ i q. let e : suc (p + i) ≡ suc p + i = omega arith in ap (λ k. get_or (x ∷ xs) k d) e)
