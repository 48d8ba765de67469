-- ===== src/Pposix/Limits.antt =====
-- util-src/pposix.c: `lc_setrlimit` and `lc_getrlimit`.
pub mod Kept
pub mod Negative
mod Tests
use prosody.Base.{
  ℕ, ◌-◌, ◌^◌, Bool, true, false, ◌||◌, not, List, [], ◌∷◌, Option, none, some, length, get_or, ltb,
  ◌==◌, if◌then◌else◌, codes,
}
use prosody.Base.Int.{ℤ}
use prosody.Base.Word.{size_of_ℤ, long_of_size}
use prosody.Base.Lua.{
  c_string, eq_bytes, check_option, Value, boolean, integer, string, Outcome, ret, raise, ◌>>=◌,
}
use prosody.Pposix.{Arg, absent, null, other, number, float, text}
use prosody.Pposix.Syslog.{at_index}

-- RLIMIT_CORE and so on.
pub data Resource : Type 0 where
  core cpu data_size fsize nofile stack memlock nproc rss nice : Resource

abbrev pub resource_strings : List (List ℕ)
resource_strings =
    codes "CORE"
    ∷ codes "CPU"
    ∷ codes "DATA"
    ∷ codes "FSIZE"
    ∷ codes "NOFILE"
    ∷ codes "STACK"
    ∷ codes "MEMLOCK"
    ∷ codes "NPROC"
    ∷ codes "RSS"
    ∷ codes "NICE"
    ∷ []

-- The array ends with -1, which no name has as its index.
abbrev pub resource_constants : List Resource
resource_constants =
    core ∷ cpu ∷ data_size ∷ fsize ∷ nofile ∷ stack ∷ memlock ∷ nproc ∷ rss ∷ nice ∷ []

-- RLIM_INFINITY
abbrev pub rlim_infinity : ℕ
rlim_infinity = 2 ^ 64 - 1

-- The system; getrlimit(2) gives the soft and the hard limit, or `none` for an error.
pub record System {ℓ} (K : Type ℓ) : Type ℓ where
  pub getrlimit : K → Resource → Option (ℕ × ℕ)
  pub setrlimit : K → Resource → ℕ → ℕ → Bool × K

-- `rlim_t` is an unsigned integer of 64 bits.
pub arg_to_rlimit : Arg → ℕ → Outcome ℕ
arg_to_rlimit (text s) current =
    if eq_bytes (codes "unlimited") (c_string s) then ret rlim_infinity else raise
arg_to_rlimit (number n) current = ret (size_of_ℤ n)
arg_to_rlimit (float n s) current = ret (size_of_ℤ n)
arg_to_rlimit absent current = ret current
arg_to_rlimit null current = ret current
arg_to_rlimit other current = raise

-- `resource_constants[luaL_checkoption(L, 1, NULL, resource_strings)]`; a number is a string too.
pub resource_of : Arg → Outcome Resource
resource_of (text s) = check_option resource_strings s >>= λ i. at_index resource_constants i
resource_of (float n s) = check_option resource_strings s >>= λ i. at_index resource_constants i
resource_of _ = raise

abbrev pub arg_at : List Arg → ℕ → Arg
arg_at args i = get_or args i absent

-- false and the text of an error.
abbrev pub refused : List ℕ → List Value
refused message = boolean false ∷ string message ∷ []

-- RLIM_INFINITY is told as a text.
abbrev pub limit_value : ℕ → Value
limit_value limit =
    if limit == rlim_infinity then string (codes "unlimited") else integer (long_of_size limit)

module _ {ℓ} {K : Type ℓ} (system : System K) where
  -- The call of setrlimit(2) and what follows.
  pub set_both : K → Resource → ℕ → ℕ → List Value × K
  set_both k rid soft hard =
      let done = system.setrlimit k rid soft hard in
      if done.0 then (boolean true ∷ [], done.1) else (refused (codes "setrlimit-failed"), done.1)

  -- `lc_setrlimit`, on the arguments that are given.
  pub setrlimit : K → List Arg → Outcome (List Value × K)
  setrlimit k args =
      if ltb (length args) 1 || ltb 3 (length args)
      then ret (refused (codes "incorrect-arguments"), k)
      else (resource_of (arg_at args 0) >>= λ rid. elim (system.getrlimit k rid) [
        | none ↦ ret (refused (codes "getrlimit-failed"), k)
        | some (soft, hard) ↦ arg_to_rlimit (arg_at args 1) soft >>= λ soft'.
            arg_to_rlimit (arg_at args 2) hard >>= λ hard'. ret (set_both k rid soft' hard')
      ])

  -- `lc_getrlimit`
  pub getrlimit : K → List Arg → Outcome (List Value)
  getrlimit k args =
      if not (length args == 1)
      then ret (refused (codes "invalid-arguments"))
      else (resource_of (arg_at args 0) >>= λ rid. elim (system.getrlimit k rid) [
        | none ↦ ret (refused (codes "getrlimit-failed."))
        | some (soft, hard) ↦ ret (boolean true ∷ limit_value soft ∷ limit_value hard ∷ [])
      ])
