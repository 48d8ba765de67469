-- ===== src/Pposix/Limits/Kept.antt =====
-- What `getrlimit` tells is what `setrlimit` takes.
use prosody.Base.{
  ℕ, ◌^◌, ◌<◌, ◌≡◌, refl, sym, ap, inl, inr, true, Bool-cases, List, [], ◌∷◌, some, ◌==◌, ==_iff,
  arith,
}
use prosody.Base.Word.{size_of_ℤ, long_of_size}
use prosody.Base.Lua.{c_string, Value, nil, boolean, integer, string, ret}
use prosody.Pposix.{Arg, null, other, number, text}
use prosody.Pposix.Limits.{
  Resource, System, rlim_infinity, arg_to_rlimit, resource_of, limit_value, set_both, setrlimit,
  getrlimit,
}

-- A value of Lua as an argument.
abbrev pub argument : Value → Arg
argument nil = null
argument (boolean b) = other
argument (integer n) = number n
argument (string s) = text s

size_of_ℤ-long_of_size : (w : ℕ) → w < 2 ^ 64 → size_of_ℤ (long_of_size w) ≡ w
size_of_ℤ-long_of_size w h = ground arith

arg_to_rlimit-limit_value :
    (limit current : ℕ)
    → limit < 2 ^ 64
    → arg_to_rlimit (argument (limit_value limit)) current ≡ ret limit
unfolding arg_to_rlimit c_string
arg_to_rlimit-limit_value limit current h = elim (Bool-cases (limit == rlim_infinity)) [
  | inl e ↦ rw e (ap ret (sym ((==_iff limit rlim_infinity).0 e)))
  | inr e ↦
      let back : size_of_ℤ (long_of_size limit) ≡ limit = size_of_ℤ-long_of_size limit h in
      rw (e, back) refl
]

-- The limits of 64 bits that `getrlimit` tells of a resource that has the name given, "unlimited"
-- among them, given back to `setrlimit`, are the ones that setrlimit(2) is asked for.
pub setrlimit-getrlimit {ℓ} :
    {K : Type ℓ} (system : System K) (k : K) (name : List ℕ) (rid : Resource) (soft hard : ℕ)
    → resource_of (text name) ≡ ret rid
    → system.getrlimit k rid ≡ some (soft, hard)
    → soft < 2 ^ 64
    → hard < 2 ^ 64
    → (v : Value) × (w : Value) × (getrlimit system k (text name ∷ [])
        ≡ ret (boolean true ∷ v ∷ w ∷ []))
      × (setrlimit system k (text name ∷ argument v ∷ argument w ∷ [])
          ≡ ret (set_both system k rid soft hard))
unfolding setrlimit getrlimit
setrlimit-getrlimit system k name rid soft hard named limits h1 h2 = (
  limit_value soft,
  limit_value hard,
  rw (named, limits) refl,
  rw (named, limits, arg_to_rlimit-limit_value soft soft h1, arg_to_rlimit-limit_value hard hard h2)
      refl,
)
