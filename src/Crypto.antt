-- ===== src/Crypto.antt =====
-- util-src/crypto.c: `util.crypto`, over the functions of OpenSSL as parameters.
pub mod Cipher
pub mod Evp
pub mod Keys
pub mod Contexts
pub mod Sign
pub mod Ecdsa
mod Small
use prosody.Base.{ℕ, Bool, true, false, List, length, leb, if◌then◌else◌}
use prosody.Base.Lua.{Outcome, ret, raise, fault}

-- `if(!test) return luaL_error(...)`
abbrev pub demand : Bool → Outcome {0} Unit
demand true = ret tt
demand false = raise

-- A write into a buffer with room for `room` bytes.
abbrev pub within : ℕ → List ℕ → Outcome {0} Unit
within room bytes = if leb (length bytes) room then ret tt else fault
