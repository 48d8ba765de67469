-- ===== src/Pposix/Ids.antt =====
-- util-src/pposix.c: `lc_setuid`, `lc_setgid` and `lc_initgroups`.
pub mod Zero
mod Tests
use prosody.Base.{
  ℕ, ◌%◌, ◌^◌, Bool, true, false, List, [], ◌∷◌, Option, none, some, ◌==◌, if◌then◌else◌, codes,
}
use prosody.Base.Int.{ℤ, pos, negsuc, ltb_ℤ, eq_ℤ}
use prosody.Base.Word.{size_of_ℤ}
use prosody.Base.Lua.{c_string, Value, nil, boolean, string}
use prosody.Pposix.{Arg, absent, null, other, number, float, text, to_int}

-- The user database and the system calls, which give their result and `errno`. A user has an id and a
-- group.
pub record System {ℓ} (K : Type ℓ) : Type ℓ where
  pub getpwnam : List ℕ → Option (ℕ × ℕ)
  pub getgrnam : List ℕ → Option ℕ
  pub setuid : K → ℤ → ℤ × ℤ × K
  pub setgid : K → ℤ → ℤ × ℤ × K
  pub initgroups : K → List ℕ → ℕ → ℤ × ℤ × K

abbrev pub refused : List ℕ → List Value
refused message = boolean false ∷ string message ∷ []

abbrev pub uid_of : Option (ℕ × ℕ) → Option ℕ
uid_of none = none
uid_of (some (uid, gid)) = some uid

abbrev pub int_of : Option ℕ → Option ℤ
int_of none = none
int_of (some id) = some (to_int (pos id))

-- The value of `uid` or `gid`; `none` for a name that is not found. `lua_tointeger` gives 0 for what
-- is no number.
pub id_of : (List ℕ → Option ℕ) → Arg → Option ℤ
id_of find (text s) = int_of (find (c_string s))
id_of find (float n s) = int_of (find (c_string s))
id_of find (number n) = some (to_int n)
id_of find _ = some (pos 0)

-- The `switch` on `errno`: EINVAL, EPERM or another.
abbrev pub id_error : List ℕ → ℤ → List ℕ
id_error invalid errno =
    if eq_ℤ errno (pos 22)
    then invalid
    else if eq_ℤ errno (pos 1)
    then codes "permission-denied"
    else codes "unknown-error"

module _ {ℓ} {K : Type ℓ} where
  -- The part that `lc_setuid` and `lc_setgid` have in common, behind the look at the argument.
  pub set_id : (K → ℤ → ℤ × ℤ × K) → List ℕ → List ℕ → K → Option ℤ → List Value × K
  set_id set no_such invalid k none = (refused no_such, k)
  set_id set no_such invalid k (some id) =
      if ltb_ℤ (negsuc 0) id
      then (let done = set k id in
          if eq_ℤ done.0 (pos 0)
          then (boolean true ∷ [], done.2)
          else (refused (id_error invalid done.1), done.2))
      else (refused invalid, k)

module _ {ℓ} {K : Type ℓ} (system : System K) where
  pub setuid : K → Arg → List Value × K
  setuid k absent = ([], k)
  setuid k arg =
      set_id system.setuid (codes "no-such-user") (codes "invalid-uid") k
        (id_of (λ name. uid_of (system.getpwnam name)) arg)

  pub setgid : K → Arg → List Value × K
  setgid k absent = ([], k)
  setgid k arg =
      set_id system.setgid (codes "no-such-group") (codes "invalid-gid") k
        (id_of system.getgrnam arg)

  -- The `switch` on the type of the second argument; `gid_t` is an unsigned integer of 32 bits.
  pub group_of : ℕ → Arg → Option ℕ
  group_of pw_gid absent = some pw_gid
  group_of pw_gid null = some pw_gid
  group_of pw_gid (number n) = some (size_of_ℤ n % 2 ^ 32)
  group_of pw_gid (float n s) = some (size_of_ℤ n % 2 ^ 32)
  group_of pw_gid (text s) = none
  group_of pw_gid other = none

  abbrev pub failed : List ℕ → List Value
  failed message = nil ∷ string message ∷ []

  -- The call of initgroups(3) and what follows: ENOMEM, EPERM or another error.
  pub init_groups : K → List ℕ → ℕ → List Value × K
  init_groups k name gid =
      let done = system.initgroups k name gid in
      if eq_ℤ done.0 (pos 0)
      then (boolean true ∷ nil ∷ [], done.2)
      else if eq_ℤ done.1 (pos 12)
      then (failed (codes "no-memory"), done.2)
      else if eq_ℤ done.1 (pos 1)
      then (failed (codes "permission-denied"), done.2)
      else (failed (codes "unknown-error"), done.2)

  -- `lc_initgroups`; the first argument is what `lua_tostring` gives, `none` where it is no string.
  pub initgroups : K → Option (List ℕ) → Arg → List Value × K
  initgroups k none arg = (failed (codes "invalid-username"), k)
  initgroups k (some name) arg = elim (system.getpwnam (c_string name)) [
    | none ↦ (failed (codes "no-such-user"), k)
    | some (uid, gid) ↦ elim (group_of gid arg) [
      | none ↦ (failed (codes "invalid-gid"), k)
      | some group ↦ init_groups k (c_string name) group
    ]
  ]
