-- ===== src/Pposix/Files/Tests.antt =====
-- Files of a small system, and the theorem at it.
use prosody.Base.{ℕ, ◌==◌, ◌≡◌, refl, false, true, [], ◌∷◌, none, some, codes}
use prosody.Base.Int.{pos, negsuc}
use prosody.Base.Lua.{integer, boolean, c_string, ret}
use prosody.Pposix.Files.{System, flags_loop, make_pipe, pipe, stdio_fclose}

-- Its state counts the calls that succeed; nothing can be closed but the file 3.
abbrev small : System ℕ ℕ
small = record {
  mkdir = λ k path mode. (negsuc 0, pos 17, k);
  pipe2 = λ k flags. (pos 0, pos 0, pos 5, pos flags, 1);
  fdopen = λ k fd mode. (some 3, pos 0, k);
  fclose = λ k f. (elim (f == 3) [ false ↦ negsuc 0 | true ↦ pos 0 ], pos 9, k);
  setenv = λ k name value. (pos 0, pos 0, k);
  unsetenv = λ k name. (pos 0, pos 0, k);
  fileno = λ k f. pos f;
  isatty = λ k fd. pos 0;
  strerror = λ errno. codes "an error";
}

-- The second number is that of the flags.
two_flags :
    pipe small 0 (codes "nonblock" ∷ codes "cloexec" ∷ [])
    ≡ ret (integer (pos 5) ∷ integer (pos 526336) ∷ [], 1)
unfolding pipe make_pipe flags_loop c_string
two_flags = refl

closed_once : stdio_fclose small 0 (some 3) ≡ (boolean true ∷ [], none, 0)
unfolding stdio_fclose
closed_once = refl
