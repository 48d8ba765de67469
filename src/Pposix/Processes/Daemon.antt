-- ===== src/Pposix/Processes/Daemon.antt =====
-- The process that is left in the background.
use prosody.Base.{ℕ, suc, ◌≡◌, ◌≢◌, refl, true, false, List, [], ◌∷◌, Option, none, some, arith}
use prosody.Base.Int.{ℤ, pos, negsuc, eq_ℤ, eq_ℤ_iff}
use prosody.Base.Lua.{boolean, nil, integer}
use prosody.Pposix.Processes.{Ended, returns, exits, fork, final_fork, child, forked, daemonize}

-- The processes that begin in a new session.
abbrev pub background : Option ℕ → List Ended
background none = exits ∷ []
background (some n) = exits ∷ returns (boolean true ∷ nil ∷ []) ∷ []

eq_ℤ-false : (a b : ℤ) → a ≢ b → eq_ℤ a b ≡ false
eq_ℤ-false a b h = ground (arith, h, eq_ℤ_iff a b)

-- What the first fork(2) gives to the caller.
forked-parent :
    (sid : ℤ) (second : Option ℕ) (n : ℕ)
    → forked sid second (pos (suc n)) ≡ returns (boolean true ∷ integer (pos (suc n)) ∷ []) ∷ []
unfolding forked
forked-parent sid second n = ground arith

child-background :
    (sid : ℤ) (second : Option ℕ) → sid ≢ negsuc 0 → child sid second ≡ background second
unfolding child fork final_fork
child-background sid none k = rw (eq_ℤ-false sid (negsuc 0) k) refl
child-background sid (some m) k =
    let parent : eq_ℤ (pos (suc m)) (pos 0) ≡ false = ground arith in
    rw (eq_ℤ-false sid (negsuc 0) k, parent) refl

-- Where the caller is no child of the first process, the first fork(2) succeeds and setsid(2) does not
-- fail, the caller is told true. If the second fork(2) succeeds, one process ends and one goes on in
-- the background, with true; if it fails, the only one ends, and none goes on.
pub daemonize-background :
    (ppid sid : ℤ) (n : ℕ) (second : Option ℕ)
    → ppid ≢ pos 1
    → sid ≢ negsuc 0
    → daemonize ppid (some n) sid second
      ≡ returns (boolean true ∷ integer (pos (suc n)) ∷ []) ∷ background second
unfolding daemonize forked fork
daemonize-background ppid sid n second h k =
    let child-left : forked sid second (pos 0) ≡ background second =
      child-background sid second k in
    rw (eq_ℤ-false ppid (pos 1) h, forked-parent sid second n, child-left) refl
