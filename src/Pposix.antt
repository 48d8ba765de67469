-- ===== src/Pposix.antt =====
-- util-src/pposix.c: `util.pposix`, as it is built for Linux. The system calls and the functions of
-- stdio are parameters; `strerror` is left out of no result, and so is a parameter too.
pub mod Append
pub mod Syslog
pub mod Limits
pub mod Ids
pub mod Umask
pub mod Processes
pub mod Files
use prosody.Base.{ℕ, List, [], ◌∷◌}
use prosody.Base.Int.{ℤ}
use prosody.Base.Word.{size_of_ℤ, int_of_size}
use prosody.Base.Lua.{Value, nil, integer, string}

-- An argument, as `lua_type`, `lua_isinteger`, `lua_tointeger` and `lua_tostring` see it: `float` has
-- what the last two give, `other` has none of these (a boolean or a table, for two).
pub data Arg : Type 0 where
  absent null other : Arg
  number : ℤ → Arg
  float : ℤ → List ℕ → Arg
  text : List ℕ → Arg

-- nil, the text of an error, and its number.
abbrev pub failure : (ℤ → List ℕ) → ℤ → List Value
failure strerror err = nil ∷ string (strerror err) ∷ integer err ∷ []

-- A `lua_Integer` stored in an `int`.
abbrev pub to_int : ℤ → ℤ
to_int n = int_of_size (size_of_ℤ n)
