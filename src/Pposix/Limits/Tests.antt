-- ===== src/Pposix/Limits/Tests.antt =====
-- Limits of a small system, and the theorems at it.
use prosody.Base.{ℕ, ◌≡◌, refl, true, [], ◌∷◌, some, codes, arith}
use prosody.Base.Lua.{Value, boolean, ret, c_string}
use prosody.Pposix.{text}
use prosody.Pposix.Limits.{
  System, nofile, rlim_infinity, resource_of, set_both, setrlimit, getrlimit,
}
use prosody.Pposix.Limits.Kept.{argument, setrlimit-getrlimit}

-- The soft and the hard limit of each resource.
abbrev small : System (ℕ × ℕ)
small = record { getrlimit = λ k rid. some k; setrlimit = λ k rid soft hard. (true, (soft, hard)) }

abbrev limits : ℕ × ℕ
limits = (1024, rlim_infinity)

named : resource_of (text (codes "NOFILE")) ≡ ret nofile
unfolding resource_of c_string
named = refl

setrlimit-getrlimit_example :
    (v : Value) × (w : Value) × (getrlimit small limits (text (codes "NOFILE") ∷ [])
      ≡ ret (boolean true ∷ v ∷ w ∷ []))
    × (setrlimit small limits (text (codes "NOFILE") ∷ argument v ∷ argument w ∷ [])
        ≡ ret (set_both small limits nofile 1024 rlim_infinity))
setrlimit-getrlimit_example =
    setrlimit-getrlimit small limits (codes "NOFILE") nofile 1024 rlim_infinity named refl
      (omega arith) (omega arith)
