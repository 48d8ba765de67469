-- ===== src/Pposix/Limits/Negative.antt =====
-- A limit below 0.
use prosody.Base.{ℕ, ◌-◌, ◌^◌, ◌<◌, ◌≡◌, refl, List, [], ◌∷◌, some, arith}
use prosody.Base.Int.{negsuc}
use prosody.Base.Word.{size_of_ℤ}
use prosody.Base.Lua.{ret}
use prosody.Pposix.{null, number, text}
use prosody.Pposix.Limits.{
  Resource, System, rlim_infinity, arg_to_rlimit, resource_of, set_both, setrlimit,
}

-- A soft limit of -(n + 1) does not stand for the current one: setrlimit(2) is asked for 2 ^ 64 -
-- (n + 1), which for -1 is no limit at all.
pub setrlimit_negative {ℓ} :
    {K : Type ℓ} (system : System K) (k : K) (name : List ℕ) (rid : Resource) (soft hard n : ℕ)
    → resource_of (text name) ≡ ret rid
    → system.getrlimit k rid ≡ some (soft, hard)
    → n < 2 ^ 63
    → setrlimit system k (text name ∷ number (negsuc n) ∷ null ∷ [])
      ≡ ret (set_both system k rid (rlim_infinity - n) hard)
unfolding setrlimit arg_to_rlimit
setrlimit_negative system k name rid soft hard n named limits h =
    let asked : size_of_ℤ (negsuc n) ≡ rlim_infinity - n = omega arith in
    rw (named, limits, asked) refl
