-- ===== src/Signal/Handlers/Tests.antt =====
-- Two signals by name and by number.
use prosody.Base.{ℕ, ◌≡◌, refl, true, List, [], ◌∷◌, none, codes, ◌+◌}
use prosody.Base.Int.{ℤ, pos, negsuc}
use prosody.Base.Lua.{ret, raise}
use prosody.Signal.Handlers.{
  number, text, Handler, Registry, System, register, resolve, l_signal, l_raise, l_kill,
}
use prosody.Signal.Handlers.Names.{IsDistinct, names-as_numbers}

abbrev two_signals : List (List ℕ × ℤ)
two_signals = (codes "SIGHUP", pos 1) ∷ (codes "SIGTERM", pos 15) ∷ []

abbrev nothing_set : Registry ℕ
nothing_set = record { names = λ k. none; functions = λ k. none }

-- A system that counts the calls.
abbrev counting : System ℕ
counting = record {
  signal = λ s sig a. (true, s + 1);
  raise = λ s sig. (pos 0, s + 1);
  kill = λ s pid sig. (negsuc 0, s + 1);
}

resolve_term : resolve (register two_signals nothing_set) (text (codes "SIGTERM")) ≡ ret (pos 15)
unfolding resolve register
resolve_term = refl

resolve_unknown : resolve (register two_signals nothing_set) (text (codes "TERM")) ≡ raise
unfolding resolve register
resolve_unknown = refl

two_signals-IsDistinct : IsDistinct two_signals
two_signals-IsDistinct = (((λ e. cc), tt), (tt, tt))

names-as_numbers_example :
    let r = register two_signals nothing_set in
    ((h : Handler ℕ)
      → l_signal counting r 0 (text (codes "SIGTERM")) h
        ≡ l_signal counting r 0 (number (pos 15)) h)
    × (l_raise counting r 0 (text (codes "SIGTERM")) ≡ l_raise counting r 0 (number (pos 15)))
    × ((pid : ℤ)
        → l_kill counting r 0 pid (text (codes "SIGTERM"))
          ≡ l_kill counting r 0 pid (number (pos 15)))
names-as_numbers_example =
    names-as_numbers counting two_signals nothing_set 0 1 (codes "SIGTERM") (pos 15)
      two_signals-IsDistinct refl
