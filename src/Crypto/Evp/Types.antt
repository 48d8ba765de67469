-- ===== src/Crypto/Evp/Types.antt =====
-- `pkey_from_arg` by the type of the key.
use prosody.Base.{
  ℕ, ◌≡◌, ◌≢◌, refl, Bool, true, false, ◌&&◌, not, Option, ◌==◌, Bool-cases, inl, inr, arith,
}
use prosody.Base.Lua.{ret, raise}
use prosody.Crypto.Evp.{Key, pkey_from_arg}

pub pkey_from_arg-refused :
    (key : Key) (type : ℕ) (require_private : Bool)
    → type ≢ 0
    → key.key_type ≢ type
    → pkey_from_arg key type require_private ≡ raise
unfolding pkey_from_arg
pkey_from_arg-refused key type require_private h k =
    let given : (type == 0) ≡ false = ground (arith, h) in
    let other : (key.key_type == type) ≡ false = ground (arith, k) in rw (given, other) refl

-- A key that is taken as a private one is given back, and a key of the same type is taken as a public
-- one.
pub pkey_from_arg-public :
    (key other : Key) (type : ℕ) (pkey : Option ℕ)
    → pkey_from_arg key type true ≡ ret pkey
    → other.key_type ≡ key.key_type
    → (key.pkey ≡ pkey) × (pkey_from_arg other type false ≡ ret other.pkey)
unfolding pkey_from_arg
pkey_from_arg-public key other type pkey e same =
    let refused = not (type == 0) && not (key.key_type == type) in
    elim (Bool-cases refused) [
      | inl r ↦ absurd (ground (arith, r, e))
      | inr t ↦ (ground (arith, t, e), rw (same, t) refl)
    ]
