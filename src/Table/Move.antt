-- ===== src/Table/Move.antt =====
-- `Lmove` against an assignment of all keys at once, whatever the overlap of source and destination.
use prosody.Base.{
  ℕ, zero, suc, ◌+◌, ◌≤◌, ◌<◌, ◌≡◌, ◌≢◌, ◌⊎◌, inl, inr, ◌∙◌, refl, sym, ap, Bool, true, false, ◌||◌,
  if◌then◌else◌, arith, Bool-cases, ℕ_discrete,
}
use prosody.Base.Int.{ℤ, pos, ◌≤ℤ◌, ◌<ℤ◌, ltb_ℤ, leb_ℤ, eq_ℤ, eq_ℤ_iff}
use prosody.Base.Lua.{ret, raise}
use prosody.Table.{
  LuaTable, is_integer, rawset, Target, source, fifth, differs, is_shared, Tables, store, target_of,
  copy, up_loop, down_loop, move,
}
use prosody.Table.Keys.{
  InRange, IsCompared, TooMany, Wraps, at, at_injective, checked-at, count_lem, count_of,
  distance_lem, down_apart, few_test, first_test, many_test, room_test, source_InRange,
  target_InRange, up_apart, Wraps-test,
}

module _ {ℓ} {A : Type ℓ} where
  rawset_self : (m : LuaTable A) (k : ℤ) (v : A) → rawset m k v k ≡ v
  rawset_self m k v = rw ((eq_ℤ_iff k k).1 refl) refl

  rawset_ne : (m : LuaTable A) (k j : ℤ) (v : A) → k ≢ j → rawset m k v j ≡ m j
  rawset_ne m k j v ne = elim (Bool-cases (eq_ℤ k j)) [
    | inl e ↦ absurd (ne ((eq_ℤ_iff k j).0 e))
    | inr e ↦ rw e refl
  ]

  store_self :
      (shared : Bool) (m : Tables A) (k : ℤ) (v : A) → target_of shared (store shared m k v) k ≡ v
  store_self true m k v = rawset_self m.src k v
  store_self false m k v = rawset_self m.dst k v

  store_ne :
      (shared : Bool) (m : Tables A) (k j : ℤ) (v : A)
      → k ≢ j
      → target_of shared (store shared m k v) j ≡ target_of shared m j
  store_ne true m k j v ne = rawset_ne m.src k j v ne
  store_ne false m k j v ne = rawset_ne m.dst k j v ne

  -- A store leaves the source alone, but for its own key where that is the destination.
  store_source :
      (shared : Bool) (m : Tables A) (k j : ℤ) (v : A)
      → (shared ≡ true → k ≢ j)
      → (store shared m k v).src j ≡ m.src j
  store_source true m k j v ne = rawset_ne m.src k j v (ne refl)
  store_source false m k j v ne = refl

  copy_lem :
      (shared : Bool) (m : Tables A) (f t : ℤ) (n i : ℕ)
      → i < n
      → InRange n f
      → InRange n t
      → copy shared m f t (pos i) ≡ ret (store shared m (at t i) (m.src (at f i)))
  unfolding copy
  copy_lem shared m f t n i h rf rt = rw (checked-at n i f h rf, checked-at n i t h rt) refl

  -- What the keys at distance `i` to `n` become: the values `v`; nothing else changes.
  abbrev pub Moved : Bool → ℤ → ℕ → ℕ → (ℕ → A) → Tables A → Tables A → Type ℓ
  Moved shared t i n v m m' =
      ((j : ℕ) → i ≤ j → j < n → target_of shared m' (at t j) ≡ v j)
      × ((k : ℤ)
          → ((j : ℕ) → i ≤ j → j < n → at t j ≢ k)
          → target_of shared m' k ≡ target_of shared m k)
      × (shared ≡ false → (k : ℤ) → m'.src k ≡ m.src k)

  module _ (shared : Bool) (f t : ℤ) (n : ℕ) (rf : InRange n f) (rt : InRange n t) (v : ℕ → A) where
    abbrev put : Tables A → ℕ → Tables A
    put m i = store shared m (at t i) (m.src (at f i))

    put_source : (m : Tables A) (i : ℕ) → shared ≡ false → (k : ℤ) → (put m i).src k ≡ m.src k
    put_source m i h k = store_source shared m (at t i) k (m.src (at f i)) (λ e. cc)

    -- Upwards, where no store reaches a value that is still to be read.
    up_loop-Moved :
        ((i j : ℕ) → shared ≡ true → i < j → j < n → at t i ≢ at f j)
        → (left i : ℕ) (m : Tables A) → i + left ≡ n
        → ((j : ℕ) → i ≤ j → j < n → m.src (at f j) ≡ v j)
        → (m' : Tables A) × (up_loop shared left m f t i ≡ ret m') × Moved shared t i n v m m'
    unfolding up_loop
    up_loop-Moved apart zero i m e holds =
        (m, refl, (λ j p q. absurd (omega arith), λ k p. refl, λ p k. refl))
    up_loop-Moved apart (suc left) i m e holds =
        let c = copy_lem shared m f t n i (omega arith) rf rt in
        let (m', run, (moved, kept, src)) =
          up_loop-Moved apart left (i + 1) (put m i) (omega arith) (λ j p q.
            store_source shared m (at t i) (at f j) (m.src (at f i))
              (λ s. apart i j s (omega arith) q)
            ∙ holds j (omega arith) q) in
        (
          m',
          rw c run,
          (
            λ j p q. elim (ℕ_discrete i j) [
              | yes same ↦
                  let own : target_of shared m' (at t i) ≡ v i =
                    kept (at t i) (λ d dp dq de. omega (arith, at_injective t d i de))
                    ∙ store_self shared m (at t i) (m.src (at f i))
                    ∙ holds i (omega arith) (omega arith) in
                  ap (λ d. target_of shared m' (at t d)) (sym same) ∙ own ∙ ap v same
              | no ne ↦ moved j (omega arith) q
            ],
            λ k p.
                kept k (λ j a b. p j (omega arith) b)
                ∙ store_ne shared m (at t i) k (m.src (at f i)) (p i (omega arith) (omega arith)),
            λ p k. src p k ∙ put_source m i p k,
          ),
        )

    -- Downwards, likewise.
    down_loop-Moved :
        ((i j : ℕ) → shared ≡ true → j < i → i < n → at t i ≢ at f j)
        → (left : ℕ) (m : Tables A) → left ≤ n
        → ((j : ℕ) → j < left → m.src (at f j) ≡ v j)
        → (m' : Tables A) × (down_loop shared left m f t ≡ ret m') × Moved shared t 0 left v m m'
    unfolding down_loop
    down_loop-Moved apart zero m e holds =
        (m, refl, (λ j p q. absurd (omega arith), λ k p. refl, λ p k. refl))
    down_loop-Moved apart (suc i) m e holds =
        let c = copy_lem shared m f t n i (omega arith) rf rt in
        let (m', run, (moved, kept, src)) = down_loop-Moved apart i (put m i) (omega arith) (λ j p.
          store_source shared m (at t i) (at f j) (m.src (at f i))
            (λ s. apart i j s p (omega arith))
          ∙ holds j (omega arith)) in
        (
          m',
          rw c run,
          (
            λ j p q. elim (ℕ_discrete i j) [
              | yes same ↦
                  let own : target_of shared m' (at t i) ≡ v i =
                    kept (at t i) (λ d dp dq de. omega (arith, at_injective t d i de))
                    ∙ store_self shared m (at t i) (m.src (at f i))
                    ∙ holds i (omega arith) in
                  ap (λ d. target_of shared m' (at t d)) (sym same) ∙ own ∙ ap v same
              | no ne ↦ moved j p (omega arith)
            ],
            λ k p.
                kept k (λ j a b. p j a (omega arith))
                ∙ store_ne shared m (at t i) k (m.src (at f i)) (p i (omega arith) (omega arith)),
            λ p k. src p k ∙ put_source m i p k,
          ),
        )

module _ {ℓ} {A : Type ℓ} (tt : Target) (m : Tables A) (f e t : ℤ) (rf : is_integer f ≡ true)
    (re : is_integer e ≡ true) where
  move_nothing : e <ℤ f → move tt m f e t ≡ ret m
  unfolding move
  move_nothing h = ground arith

  move_refused : f ≤ℤ e → TooMany f e ⊎ (¬ TooMany f e × Wraps f e t) → move tt m f e t ≡ raise
  unfolding move
  move_refused h (inl many) = rw (first_test f e t rf re h, many_test f e t rf re h many) refl
  move_refused h (inr (few, wraps)) =
      rw
        (
          first_test f e t rf re h,
          few_test f e t rf re h few,
          distance_lem f e t rf re h few,
          count_lem f e t rf re h few,
          Wraps-test f e t rf re h wraps,
        )
        refl

  move_allowed :
      f ≤ℤ e
      → ¬ TooMany f e
      → ¬ Wraps f e t
      → move tt m f e t ≡ (
          if ltb_ℤ e t || leb_ℤ t f || differs tt
          then up_loop (is_shared tt) (count_of f e) m f t 0
          else down_loop (is_shared tt) (count_of f e) m f t)
  unfolding move
  move_allowed h few room =
      rw
        (
          first_test f e t rf re h,
          few_test f e t rf re h few,
          distance_lem f e t rf re h few,
          count_lem f e t rf re h few,
          room_test f e t rf re h room,
        )
        refl

  move_runs :
      is_integer t ≡ true
      → IsCompared tt
      → f ≤ℤ e
      → ¬ TooMany f e
      → ¬ Wraps f e t
      → (m' : Tables A) × (move tt m f e t ≡ ret m')
        × Moved (is_shared tt) t 0 (count_of f e) (λ j. m.src (at f j)) m m'
  move_runs rt compared h few room =
      let n = count_of f e in
      let rs = source_InRange f e t rf re h in
      let rd = target_InRange f e t rf re h rt room in
      elim (Bool-cases (ltb_ℤ e t || leb_ℤ t f || differs tt)) [
        | inl up ↦
            let (m', run, moved) =
              up_loop-Moved (is_shared tt) f t n rs rd (λ j. m.src (at f j))
                (λ i j s p q. up_apart f e t rf re h (not_differs tt compared up s) i j p q) n 0 m
                (omega arith) (λ j p q. refl) in
            (m', move_allowed h few room ∙ rw up run, moved)
        | inr down ↦
            let (m', run, moved) =
              down_loop-Moved (is_shared tt) f t n rs rd (λ j. m.src (at f j))
                (λ i j s p q. down_apart f e t rf re h (ground arith) i j p q) n m (omega arith)
                (λ j p. refl) in
            (m', move_allowed h few room ∙ rw down run, moved)
      ]
    where
      not_differs :
          (tt : Target)
          → IsCompared tt
          → (ltb_ℤ e t || leb_ℤ t f || differs tt) ≡ true
          → is_shared tt ≡ true
          → (ltb_ℤ e t || leb_ℤ t f) ≡ true
      not_differs source c u s = ground arith
      not_differs (fifth equal shared) c u s = ground (arith, c s)

-- `Lmove` of 64-bit integers returns where no more keys are moved than the largest integer and none
-- of the destination is above it, and a comparison of a table with itself holds: each key at distance
-- `j` from `t` then holds what the source held at distance `j` from `f`, and all else is unchanged,
-- also where source and destination are one table and overlap.
pub move-Moved {ℓ} :
    {A : Type ℓ} (tt : Target) (m : Tables A) (f e t : ℤ)
    → is_integer f ≡ true
    → is_integer e ≡ true
    → is_integer t ≡ true
    → IsCompared tt
    → f ≤ℤ e
    → ¬ TooMany f e
    → ¬ Wraps f e t
    → (m' : Tables A) × (move tt m f e t ≡ ret m')
      × Moved (is_shared tt) t 0 (count_of f e) (λ j. m.src (at f j)) m m'
move-Moved tt m f e t rf re rt c = move_runs tt m f e t rf re rt c

-- `Lmove` of 64-bit integers with `e` not below `f` raises an error and stores nothing where the
-- number of keys, or else a key of the destination, would be above the largest integer.
pub move-raises {ℓ} :
    {A : Type ℓ} (tt : Target) (m : Tables A) (f e t : ℤ)
    → is_integer f ≡ true
    → is_integer e ≡ true
    → f ≤ℤ e
    → TooMany f e ⊎ (¬ TooMany f e × Wraps f e t)
    → move tt m f e t ≡ raise
move-raises tt m f e t rf re = move_refused tt m f e t rf re
