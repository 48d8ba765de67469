-- ===== src/Pposix/Append.antt =====
-- util-src/pposix.c: `lc_atomic_append` and `lc_remove_blocks`.
pub mod Atomic
mod Tests
use prosody.Base.{ℕ, true, false, Bool, ◌||◌, List, [], ◌∷◌, length, ◌==◌, if◌then◌else◌}
use prosody.Base.Int.{ℤ, pos, eq_ℤ}
use prosody.Base.Lua.{Value, boolean, Outcome, ret, raise}
use prosody.Pposix.{failure}

-- stdio and the system calls on a file. `F` is the state of the `FILE` and of the file under it; a
-- `ℤ` is what the call returns, and `errno` behind a call is given with it.
pub record Stdio {ℓ} (F : Type ℓ) : Type ℓ where
  pub ftell : F → ℤ
  pub fallocate : F → Bool → ℤ → ℤ → ℤ × ℤ × F
  pub fwrite : F → List ℕ → ℕ × F
  pub fflush : F → ℤ × ℤ × F
  pub ferror : F → ℤ
  pub fseek : F → ℤ → F
  pub ftruncate : F → ℤ → ℤ × F
  pub strerror : ℤ → List ℕ

-- ENOSYS and EOPNOTSUPP
abbrev pub enosys : ℤ
enosys = pos 38

abbrev pub eopnotsupp : ℤ
eopnotsupp = pos 95

abbrev pub is_zero : ℤ → Bool
is_zero n = eq_ℤ n (pos 0)

-- `err` after a failed fallocate(2).
abbrev pub error_of : ℤ → ℤ → ℤ
error_of returned errno = if is_zero errno then returned else errno

-- The `switch` on it.
abbrev pub is_ignored : ℤ → Bool
is_ignored err = eq_ℤ err enosys || eq_ℤ err eopnotsupp

module _ {ℓ} {F : Type ℓ} (stdio : Stdio F) where
  -- The end of `lc_atomic_append`, where the write failed.
  pub cut_back : F → ℤ → ℤ → Outcome (List Value) × F
  cut_back f offset err =
      let cut = stdio.ftruncate (stdio.fseek f offset) offset in
      if is_zero cut.0 then (ret (failure stdio.strerror err), cut.1) else (raise, cut.1)

  -- The part from fwrite(3) on.
  pub write_out : F → List ℕ → ℤ → Outcome (List Value) × F
  write_out f bytes offset =
      let written = stdio.fwrite f bytes in
      if written.0 == length bytes
      then (let flushed = stdio.fflush written.1 in
          if is_zero flushed.0
          then (ret (boolean true ∷ []), flushed.2)
          else cut_back flushed.2 offset flushed.1)
      else cut_back written.1 offset (stdio.ferror written.1)

  -- `lc_atomic_append`; `true` is FALLOC_FL_KEEP_SIZE.
  pub atomic_append : F → List ℕ → Outcome (List Value) × F
  atomic_append f bytes =
      let offset = stdio.ftell f in
      let reserved = stdio.fallocate f true offset (pos (length bytes)) in
      let err = error_of reserved.0 reserved.1 in
      if is_zero reserved.0
      then write_out reserved.2 bytes offset
      else if is_ignored err
      then write_out reserved.2 bytes offset
      else (ret (failure stdio.strerror err), reserved.2)

  -- `lc_remove_blocks`; `false` is FALLOC_FL_COLLAPSE_RANGE.
  pub remove_blocks : F → ℤ → ℤ → List Value × F
  remove_blocks f offset len =
      let done = stdio.fallocate f false offset len in
      if is_zero done.0
      then (boolean true ∷ [], done.2)
      else (failure stdio.strerror (error_of done.0 done.1), done.2)
