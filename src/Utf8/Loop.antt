-- ===== src/Utf8/Loop.antt =====
-- The loop of `utf8_decode`, one byte after the other, and the test behind it.
use prosody.Base.{
  ℕ, ◌+◌, ◌*◌, ◌%◌, ◌^◌, ◌≤◌, ◌<◌, ◌≡◌, ◌≢◌, ◌∙◌, inl, inr, refl, sym, true, false, List, [], ◌∷◌,
  some, get_or, arith, Bool-cases,
}
use prosody.Base.Lua.{ret}
use prosody.Utf8.{word, finish, has_next, is_continuation, continue_loop, limits}
use prosody.Utf8.Scalar.{IsScalar}

-- The value that `finish` forms.
abbrev pub value_of : ℕ → ℕ → ℕ → ℕ
value_of c res count = word (res + word (c % 128 * 2 ^ (count * 5)))

-- What the last test asks of a value.
abbrev pub Accepted : ℕ → ℕ → Type 0
Accepted count v = (get_or limits count 0 < v) × IsScalar v

pub finish-some :
    (s rest : List ℕ) (c res count v : ℕ)
    → finish s c res count ≡ ret (some (v, rest))
    → (count ≤ 3) × (v ≡ value_of c res count) × (rest ≡ s) × Accepted count v
unfolding finish
finish-some s rest c res count v e = ground (arith, e)

pub finish-Accepted :
    (s : List ℕ) (c res count v : ℕ)
    → count ≤ 3
    → value_of c res count ≡ v
    → Accepted count v
    → finish s c res count ≡ ret (some (v, s))
unfolding finish
finish-Accepted s c res count v h e a = ground (arith, e, a)

pub loop_stop :
    (s : List ℕ) (c res count : ℕ)
    → has_next c ≡ false
    → continue_loop s c res count ≡ finish s c res count
unfolding continue_loop
loop_stop [] c res count h = rw h refl
loop_stop (a ∷ s) c res count h = rw h refl

pub loop_next :
    (a c res count : ℕ) (s : List ℕ)
    → has_next c ≡ true
    → is_continuation a ≡ true
    → continue_loop (a ∷ s) c res count
      ≡ continue_loop s (word (c * 2)) (word (res * 64) + a % 64) (count + 1)
unfolding continue_loop
loop_next a c res count s h k = rw (h, k) refl

-- Where the loop goes on and succeeds, a continuation byte stood first.
pub loop_next-some :
    (s : List ℕ) (c res count : ℕ) (x : ℕ × List ℕ)
    → has_next c ≡ true
    → continue_loop s c res count ≡ ret (some x)
    → (a : ℕ) × (s' : List ℕ) × (s ≡ a ∷ s')
      × (is_continuation a ≡ true)
      × (continue_loop s' (word (c * 2)) (word (res * 64) + a % 64) (count + 1) ≡ ret (some x))
unfolding continue_loop
loop_next-some [] c res count x h e = absurd (ground (arith, h, e))
loop_next-some (a ∷ s) c res count x h e = ground (arith, h, e)

-- Four continuation bytes are too many.
pub loop_many :
    (s : List ℕ) (c res count : ℕ) (x : ℕ × List ℕ)
    → 3 < count
    → continue_loop s c res count ≢ ret (some x)
unfolding continue_loop
loop_many [] c res count x h e = elim (Bool-cases (has_next c)) [
  | inl k ↦ ground (arith, k, e)
  | inr k ↦
      omega (arith, (finish-some [] x.1 c res count x.0 (sym (loop_stop [] c res count k) ∙ e)).0)
]
loop_many (a ∷ s) c res count x h e = elim (Bool-cases (has_next c)) [
  | inl k ↦
      loop_many s (word (c * 2)) (word (res * 64) + a % 64) (count + 1) x (omega arith)
        (ground (arith, k, e))
  | inr k ↦ omega (
    arith,
    (finish-some (a ∷ s) x.1 c res count x.0 (sym (loop_stop (a ∷ s) c res count k) ∙ e)).0,
  )
]
