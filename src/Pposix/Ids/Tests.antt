-- ===== src/Pposix/Ids/Tests.antt =====
-- Users of a small system, and the theorem at it.
use prosody.Base.{◌^◌, ◌≡◌, refl, true, [], ◌∷◌, some, codes, arith}
use prosody.Base.Int.{ℤ, pos, negsuc}
use prosody.Base.Lua.{boolean, c_string}
use prosody.Pposix.{number, text}
use prosody.Pposix.Ids.{System, id_of, set_id, setuid, setgid}
use prosody.Pposix.Ids.Zero.{setuid-IsTakenForZero}

-- Its state is the user id; each name is of the user 5 in group 6.
abbrev small : System ℤ
small = record {
  getpwnam = λ name. some (5, 6);
  getgrnam = λ name. some 6;
  setuid = λ k id. (pos 0, pos 0, id);
  setgid = λ k id. (negsuc 0, pos 1, k);
  initgroups = λ k name gid. (pos 0, pos 0, k);
}

by_name : setuid small (pos 0) (text (codes "prosody")) ≡ (boolean true ∷ [], pos 5)
unfolding setuid set_id id_of c_string
by_name = refl

setuid-IsTakenForZero_example :
    (setuid small (pos 7) (number (pos (2 ^ 32))) ≡ setuid small (pos 7) (number (pos 0)))
    × (setgid small (pos 7) (number (pos (2 ^ 32))) ≡ setgid small (pos 7) (number (pos 0)))
setuid-IsTakenForZero_example =
    setuid-IsTakenForZero small (pos 7) (number (pos (2 ^ 32))) (omega arith)
