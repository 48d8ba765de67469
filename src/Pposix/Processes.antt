-- ===== src/Pposix/Processes.antt =====
-- util-src/pposix.c: `lc_abort`, and `lc_daemonize` in all the processes that it makes.
pub mod Daemon
mod Tests
use prosody.Base.{
  ℕ, suc, Bool, true, false, not, List, [], ◌∷◌, ◌++◌, Option, none, some, if◌then◌else◌, codes,
}
use prosody.Base.Int.{ℤ, pos, negsuc, ltb_ℤ, eq_ℤ}
use prosody.Base.Lua.{Value, nil, boolean, integer, string}

-- How the call ends in a process: it returns to Lua, or the process ends, by `exit(0)` or by a
-- signal.
pub data Ended : Type 0 where
  returns : List Value → Ended
  exits aborts : Ended

-- fork(2) fails, or it returns in two processes: the caller, with a number above 0, and the new one.
pub fork : Option ℕ → (ℤ → List Ended) → List Ended
fork none continue = continue (negsuc 0)
fork (some n) continue = continue (pos (suc n)) ++ continue (pos 0)

-- `if(fork()) exit(0);` and what follows.
pub final_fork : ℤ → List Ended
final_fork pid =
    if not (eq_ℤ pid (pos 0)) then exits ∷ [] else returns (boolean true ∷ nil ∷ []) ∷ []

-- The child of the first fork(2); `sid` is what setsid(2) returns.
pub child : ℤ → Option ℕ → List Ended
child sid second =
    if eq_ℤ sid (negsuc 0)
    then returns (boolean false ∷ string (codes "setsid-failed") ∷ []) ∷ []
    else fork second final_fork

-- What follows the first fork(2).
pub forked : ℤ → Option ℕ → ℤ → List Ended
forked sid second pid =
    if ltb_ℤ pid (pos 0)
    then returns (boolean false ∷ string (codes "fork-failed") ∷ []) ∷ []
    else if not (eq_ℤ pid (pos 0))
    then returns (boolean true ∷ integer pid ∷ []) ∷ []
    else child sid second

-- `lc_daemonize`, by what getppid(2), the first fork(2), setsid(2) and the second fork(2) give. The
-- standard streams, which it reopens, are not part of the model.
pub daemonize : ℤ → Option ℕ → ℤ → Option ℕ → List Ended
daemonize ppid first sid second =
    if eq_ℤ ppid (pos 1)
    then returns (boolean false ∷ string (codes "already-daemonized") ∷ []) ∷ []
    else fork first (forked sid second)

-- `lc_abort`
abbrev pub abort : List Ended
abort = aborts ∷ []
