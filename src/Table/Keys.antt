-- ===== src/Table/Keys.antt =====
-- The keys of `Lmove`, and the arithmetic of its tests.
use prosody.Base.{ℕ, ◌<◌, ◌≡◌, ◌≢◌, true, false, ◌||◌, arith}
use prosody.Base.Int.{ℤ, pos, pos_part, ◌+ℤ◌, ◌-ℤ◌, ◌≤ℤ◌, ◌<ℤ◌, ltb_ℤ, leb_ℤ}
use prosody.Base.Lua.{ret}
use prosody.Table.{max_integer, min_integer, is_integer, checked, Target, source, fifth}

-- The key at distance `i` from `t`.
abbrev pub at : ℤ → ℕ → ℤ
at t i = t +ℤ pos i

pub at_injective : (t : ℤ) (i j : ℕ) → at t i ≡ at t j → i ≡ j
at_injective t i j e = ground (arith, e)

-- The keys at the distances below `n` are each a `lua_Integer`.
abbrev pub InRange : ℕ → ℤ → Type 0
InRange n t = (min_integer ≤ℤ t) × (t +ℤ pos n ≤ℤ max_integer +ℤ pos 1)

pub checked-at : (n i : ℕ) (t : ℤ) → i < n → InRange n t → checked (at t i) ≡ ret (at t i)
checked-at n i t h r = ground arith

-- What `lua_compare` says of one table and itself.
abbrev pub IsCompared : Target → Type 0
IsCompared source = Unit
IsCompared (fifth equal shared) = shared ≡ true → equal ≡ true

-- The number of keys from `f` to `e`.
abbrev pub count_of : ℤ → ℤ → ℕ
count_of f e = pos_part (e -ℤ f +ℤ pos 1)

abbrev pub TooMany : ℤ → ℤ → Type 0
TooMany f e = (f ≤ℤ pos 0) × (max_integer +ℤ f ≤ℤ e)

abbrev pub Wraps : ℤ → ℤ → ℤ → Type 0
Wraps f e t = max_integer +ℤ pos 1 <ℤ t +ℤ pos (count_of f e)

module _ (f e t : ℤ) (rf : is_integer f ≡ true) (re : is_integer e ≡ true) (h : f ≤ℤ e) where
  pub first_test : leb_ℤ f e ≡ true
  first_test = ground arith

  pub many_test : TooMany f e → (ltb_ℤ (pos 0) f || ltb_ℤ e (max_integer +ℤ f)) ≡ false
  many_test bad = ground arith

  pub few_test : ¬ TooMany f e → (ltb_ℤ (pos 0) f || ltb_ℤ e (max_integer +ℤ f)) ≡ true
  few_test few = ground arith

  pub distance_lem : ¬ TooMany f e → checked (e -ℤ f) ≡ ret (e -ℤ f)
  distance_lem few = ground arith

  pub count_lem : ¬ TooMany f e → checked (e -ℤ f +ℤ pos 1) ≡ ret (e -ℤ f +ℤ pos 1)
  count_lem few = ground arith

  pub Wraps-test : Wraps f e t → leb_ℤ t (max_integer -ℤ (e -ℤ f +ℤ pos 1) +ℤ pos 1) ≡ false
  Wraps-test bad = ground arith

  pub room_test : ¬ Wraps f e t → leb_ℤ t (max_integer -ℤ (e -ℤ f +ℤ pos 1) +ℤ pos 1) ≡ true
  room_test room = ground arith

  pub source_InRange : InRange (count_of f e) f
  source_InRange = ground arith

  pub target_InRange : is_integer t ≡ true → ¬ Wraps f e t → InRange (count_of f e) t
  target_InRange rt room = ground arith

  -- Upwards no store reaches a later value, where the target is not above the source's first key.
  pub up_apart :
      (ltb_ℤ e t || leb_ℤ t f) ≡ true → (i j : ℕ) → i < j → j < count_of f e → at t i ≢ at f j
  up_apart test i j p q same = ground (arith, same)

  pub down_apart :
      (ltb_ℤ e t || leb_ℤ t f) ≡ false → (i j : ℕ) → j < i → i < count_of f e → at t i ≢ at f j
  down_apart test i j p q same = ground (arith, same)
