-- ===== src/Signal/Handlers/Names.antt =====
-- A signal by its name is the signal by its number.
use prosody.Base.{
  ℕ, zero, suc, ◌≡◌, ◌≢◌, inl, inr, ◌∙◌, refl, sym, ap, List, [], ◌∷◌, some, get_elem?, arith,
  Bool-cases,
}
use prosody.Base.Int.{ℤ}
use prosody.Base.Lua.{eq_bytes, eq_bytes_refl, eq_bytes-eq}
use prosody.Signal.Handlers.{
  number, text, Handler, clear, function, no_function, Registry, System, set_name, register,
  resolve, l_signal, l_raise, l_kill,
}

-- No name stands in the list.
abbrev pub Unnamed : List ℕ → List (List ℕ × ℤ) → Type 0
Unnamed name [] = Unit
Unnamed name ((other, n) ∷ signals) = (other ≢ name) × Unnamed name signals

-- The list names each signal once.
abbrev pub IsDistinct : List (List ℕ × ℤ) → Type 0
IsDistinct [] = Unit
IsDistinct ((name, n) ∷ signals) = Unnamed name signals × IsDistinct signals

module _ {ℓ} {F : Type ℓ} where
  names-register_other :
      (signals : List (List ℕ × ℤ)) (r : Registry F) (name : List ℕ)
      → Unnamed name signals
      → (register signals r).names name ≡ r.names name
  unfolding register
  names-register_other [] r name h = refl
  names-register_other ((other, n) ∷ signals) r name h =
      names-register_other signals (set_name r other n) name h.1
      ∙ elim (Bool-cases (eq_bytes other name)) [
        | inl e ↦ absurd (h.0 (eq_bytes-eq other name e))
        | inr e ↦ rw e refl
      ]

  names-register :
      (signals : List (List ℕ × ℤ)) (r : Registry F) (i : ℕ) (name : List ℕ) (n : ℤ)
      → IsDistinct signals
      → get_elem? signals i ≡ some (name, n)
      → (register signals r).names name ≡ some n
  unfolding register
  names-register [] r i name n d e = absurd (ground (arith, e))
  names-register ((other, m) ∷ signals) r zero name n d e =
      let same_name : other ≡ name = cc in
      let same_number : m ≡ n = cc in
      ap (λ k. (register signals (set_name r other m)).names k) (sym same_name)
      ∙ names-register_other signals (set_name r other m) other d.0
      ∙ rw (eq_bytes_refl other) (ap some same_number)
  names-register ((other, m) ∷ signals) r (suc i) name n d e =
      names-register signals (set_name r other m) i name n d.1 e

  resolve-name :
      (signals : List (List ℕ × ℤ)) (r : Registry F) (i : ℕ) (name : List ℕ) (n : ℤ)
      → IsDistinct signals
      → get_elem? signals i ≡ some (name, n)
      → resolve (register signals r) (text name) ≡ resolve (register signals r) (number n)
  unfolding resolve
  resolve-name signals r i name n d e = rw (names-register signals r i name n d e, resolve) refl

-- In the registry that `luaopen` fills from a list that names each signal once, `l_signal`, `l_raise`
-- and `l_kill` do for the name of a signal what they do for its number.
pub names-as_numbers {ℓ κ} :
    {F : Type ℓ} {S : Type κ} (system : System S) (signals : List (List ℕ × ℤ)) (r : Registry F)
    (s : S) (i : ℕ) (name : List ℕ) (n : ℤ)
    → IsDistinct signals
    → get_elem? signals i ≡ some (name, n)
    → let r' = register signals r in
      ((h : Handler F) → l_signal system r' s (text name) h ≡ l_signal system r' s (number n) h)
      × (l_raise system r' s (text name) ≡ l_raise system r' s (number n))
      × ((pid : ℤ) → l_kill system r' s pid (text name) ≡ l_kill system r' s pid (number n))
unfolding l_signal l_raise l_kill
names-as_numbers {F} system signals r s i name n d e =
    let same = resolve-name signals r i name n d e in
    let named = names-register signals r i name n d e in
    (go same, rw (named, l_raise) refl, λ pid. rw (named, l_kill) refl)
  where
    go :
        resolve (register signals r) (text name) ≡ resolve (register signals r) (number n)
        → (h : Handler F)
        → l_signal system (register signals r) s (text name) h
          ≡ l_signal system (register signals r) s (number n) h
    go same clear = rw same refl
    go same (function f) = rw same refl
    go same no_function = rw same refl
