-- ===== src/Pposix/Files.antt =====
-- util-src/pposix.c: `lc_mkdir`, `lc_pipe`, `lc_fdopen`, `lc_setenv` and `lc_isatty`.
pub mod Flags
mod Tests
use Prim.Native.Nat.{bit_or}
use prosody.Base.{
  ℕ, ◌+◌, Bool, true, false, List, [], ◌∷◌, Option, none, some, ◌⊎◌, inl, inr, ◌==◌, if◌then◌else◌,
  codes,
}
use prosody.Base.Int.{ℤ, pos, negsuc, eq_ℤ}
use prosody.Base.Lua.{
  eq_bytes, c_string, Value, nil, boolean, integer, string, Outcome, ret, raise, fault, ◌>>=◌,
}
use prosody.Pposix.{failure, to_int}
use prosody.Pposix.Syslog.{at_index}

-- The system calls and the functions of the C library. `K` is what they change; a `ℤ` that stands
-- alone is what the call returns, and where two stand, `errno` follows it. `H` is a `FILE *`.
pub record System {ℓ} (K H : Type ℓ) : Type ℓ where
  pub mkdir : K → List ℕ → ℕ → ℤ × ℤ × K
  pub pipe2 : K → ℕ → ℤ × ℤ × ℤ × ℤ × K
  pub fdopen : K → ℤ → List ℕ → Option H × ℤ × K
  pub fclose : K → H → ℤ × ℤ × K
  pub setenv : K → List ℕ → List ℕ → ℤ × ℤ × K
  pub unsetenv : K → List ℕ → ℤ × ℤ × K
  pub fileno : K → H → ℤ
  pub isatty : K → ℤ → ℤ
  pub strerror : ℤ → List ℕ

-- `luaL_checkoption` on an array without a NULL at its end, which it looks through until it meets one.
abbrev pub unterminated_index : List (List ℕ) → ℕ → List ℕ → Outcome ℕ
unterminated_index [] i s = fault
unterminated_index (name ∷ rest) i s =
    let more = unterminated_index rest (i + 1) s in if eq_bytes name s then ret i else more

abbrev pub pipe_flag_names : List (List ℕ)
pipe_flag_names = codes "cloexec" ∷ codes "direct" ∷ codes "nonblock" ∷ []

-- O_CLOEXEC, O_DIRECT and O_NONBLOCK, as Linux has them on x86-64.
abbrev pub pipe_flag_values : List ℕ
pipe_flag_values = 524288 ∷ 16384 ∷ 2048 ∷ []

-- The loop of `lc_pipe`.
pub flags_loop : List (List ℕ) → ℕ → Outcome ℕ
flags_loop [] flags = ret flags
flags_loop (arg ∷ rest) flags =
    unterminated_index pipe_flag_names 0 (c_string arg) >>= λ flag_index.
    at_index pipe_flag_values flag_index >>= λ value. flags_loop rest (bit_or flags value)

module _ {ℓ} {K H : Type ℓ} (system : System K H) where
  abbrev pub failed : ℤ → List Value
  failed errno = nil ∷ string (system.strerror errno) ∷ []

  -- `lc_mkdir`; the mode is 0775.
  pub mkdir : K → List ℕ → List Value × K
  mkdir k path =
      let done = system.mkdir k (c_string path) 509 in
      if eq_ℤ done.0 (pos 0)
      then (boolean true ∷ [], done.2)
      else (boolean false ∷ string (system.strerror done.1) ∷ [], done.2)

  -- What follows the loop of `lc_pipe`: pipe2(2) gives its result, `errno` and the two descriptors.
  pub make_pipe : K → ℕ → List Value × K
  make_pipe k flags =
      let done = system.pipe2 k flags in
      if eq_ℤ done.0 (negsuc 0)
      then (failed done.1, done.4)
      else (integer done.2 ∷ integer done.3 ∷ [], done.4)

  -- `lc_pipe`
  pub pipe : K → List (List ℕ) → Outcome (List Value × K)
  pipe k args = flags_loop args 0 >>= λ flags. ret (make_pipe k flags)

  -- `stdio_fclose`, with the `f` of the stream, which is NULL once it is closed.
  pub stdio_fclose : K → Option H → List Value × Option H × K
  stdio_fclose k none = ([], none, k)
  stdio_fclose k (some f) =
      let res = system.fclose k f in
      if eq_ℤ res.0 (pos 0)
      then (boolean true ∷ [], none, res.2)
      else (failure system.strerror res.1, none, res.2)

  -- `lc_fdopen`: the stream, or nil and an error.
  pub fdopen : K → ℤ → List ℕ → (List Value ⊎ H) × K
  fdopen k fd mode =
      let done = system.fdopen k (to_int fd) (c_string mode) in
      elim done.0 [ none ↦ (inl (failed done.1), done.2) | some f ↦ (inr f, done.2) ]

  -- `lc_setenv`; `none` where the second argument is nil or is not given.
  pub setenv : K → List ℕ → Option (List ℕ) → List Value × K
  setenv k var none =
      let done = system.unsetenv k (c_string var) in
      if eq_ℤ done.0 (pos 0) then (boolean true ∷ [], done.2) else (failed done.1, done.2)
  setenv k var (some value) =
      let done = system.setenv k (c_string var) (c_string value) in
      if eq_ℤ done.0 (pos 0) then (boolean true ∷ [], done.2) else (failed done.1, done.2)

  -- `lc_isatty`; `lua_pushboolean` takes what is not 0 for true.
  pub isatty : K → H → List Value
  isatty k f =
      boolean (if eq_ℤ (system.isatty k (system.fileno k f)) (pos 0) then false else true) ∷ []
