-- ===== src/Signal/Handlers.antt =====
-- util-src/signal.c: `l_signal`, `l_raise` and `l_kill`, and the table that `luaopen` fills.
-- signal(2), raise(3) and kill(2) are parameters over a state of the system's own, and so are the
-- numbers of the signals, which are the system's.
pub mod Names
mod Tests
use prosody.Base.{
  ℕ, Bool, true, false, ◌&&◌, List, [], ◌∷◌, Option, none, some, ◌==◌, if◌then◌else◌,
}
use prosody.Base.Int.{ℤ, pos, negsuc, eq_ℤ}
use prosody.Base.Word.{size_of_ℤ, int_of_size}
use prosody.Base.Lua.{eq_bytes, Outcome, ret, raise, ◌>>=◌}

-- A Lua value where a signal is wanted: an integer, a string, or another.
pub data Arg : Type 0 where
  number : ℤ → Arg
  text : List ℕ → Arg
  another : Arg

-- The second argument of `l_signal`.
pub data Handler {ℓ} (F : Type ℓ) : Type ℓ where
  clear : Handler F
  function : F → Handler F
  no_function : Handler F

-- The table `lua_signal` in the registry: the numbers by name, and the functions by number.
pub record Registry {ℓ} (F : Type ℓ) : Type ℓ where
  pub names : List ℕ → Option ℤ
  pub functions : ℤ → Option F

-- What signal(2) sets.
pub data Action : Type 0 where
  default handle : Action

-- The system's side; signal(2) says whether it succeeded, raise(3) and kill(2) return an integer.
pub record System {ℓ} (S : Type ℓ) : Type ℓ where
  pub signal : S → ℤ → Action → Bool × S
  pub raise : S → ℤ → ℤ × S
  pub kill : S → ℤ → ℤ → ℤ × S

-- `(int) lua_tointeger(L, i)`
abbrev pub to_int : ℤ → ℤ
to_int n = int_of_size (size_of_ℤ n)

module _ {ℓ} {F : Type ℓ} where
  abbrev pub set_name : Registry F → List ℕ → ℤ → Registry F
  set_name r name n = record r { names = λ k. if eq_bytes name k then some n else r.names k }

  -- The `while` of `luaopen_prosody_util_signal` over `lua_signals`.
  pub register : List (List ℕ × ℤ) → Registry F → Registry F
  register [] r = r
  register ((name, n) ∷ signals) r = register signals (set_name r name n)

  -- The signal that the argument of `l_signal` means.
  pub resolve : Registry F → Arg → Outcome ℤ
  resolve r (number n) = ret (to_int n)
  resolve r (text s) = elim (r.names s) [ none ↦ raise | some n ↦ ret (to_int n) ]
  resolve r another = raise

  abbrev pub set_function : Registry F → ℤ → Option F → Registry F
  set_function r sig f = record r { functions = λ k. if eq_ℤ sig k then f else r.functions k }

-- What `l_signal` returns: the old function or nil, or whether signal(2) succeeded.
pub data Result {ℓ} (F : Type ℓ) : Type ℓ where
  old : Option F → Result F
  set_ok : Bool → Result F

module _ {ℓ κ} {F : Type ℓ} {S : Type κ} (system : System S) where
  pub l_signal : Registry F → S → Arg → Handler F → Outcome (Result F × Registry F × S)
  l_signal r s arg clear = resolve r arg >>= λ sig.
      let called = system.signal s sig default in
      ret (old (r.functions sig), set_function r sig none, called.1)
  l_signal r s arg (function f) = resolve r arg >>= λ sig.
      let called = system.signal s sig handle in
      ret (set_ok called.0, set_function r sig (some f), called.1)
  l_signal r s arg no_function = resolve r arg >>= λ sig. raise

  pub l_raise : Registry F → S → Arg → Outcome (ℤ × S)
  l_raise r s (number n) = ret (system.raise s (to_int n))
  l_raise r s (text name) = elim (r.names name) [
    | none ↦ raise
    | some n ↦ ret (system.raise s (to_int n))
  ]
  l_raise r s another = raise

  pub l_kill : Registry F → S → ℤ → Arg → Outcome (ℤ × S)
  l_kill r s pid (number n) = ret (system.kill s (to_int pid) (to_int n))
  l_kill r s pid (text name) = elim (r.names name) [
    | none ↦ raise
    | some n ↦ ret (system.kill s (to_int pid) (to_int n))
  ]
  l_kill r s pid another = raise
