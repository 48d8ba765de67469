-- ===== src/Pposix/Umask/RoundTrip.antt =====
-- The text that `umask` returns stands for the mask that there was.
use prosody.Base.{
  ℕ, ◌%◌, ◌^◌, ◌<◌, ◌≡◌, ◌∙◌, refl, true, List, ◌==◌, ==_iff, passes_below, test_of_passes_below,
  arith,
}
use prosody.Base.Lua.{c_string}
use prosody.Pposix.Umask.{skip_spaces, digits_of, signed, strtoul, octal, mode_string, set_umask}

-- umask(2) keeps the nine bits of its argument and returns what it had.
pub record IsUmask {ℓ} {K : Type ℓ} (umask : K → ℕ → ℕ × K) (mask : K → ℕ) : Type ℓ where
  pub small : (k : K) → mask k < 512
  pub before : (k : K) (mode : ℕ) → (umask k mode).0 ≡ mask k
  pub behind : (k : K) (mode : ℕ) → mask (umask k mode).1 ≡ mode % 512

reads_modes : passes_below (λ m. strtoul (c_string (mode_string m)) == m) 512 ≡ true
unfolding passes_below strtoul signed digits_of skip_spaces mode_string octal c_string
reads_modes = refl

strtoul-mode_string : (mode : ℕ) → mode < 512 → strtoul (c_string (mode_string mode)) ≡ mode
strtoul-mode_string mode h =
    (==_iff _ _).0
      (test_of_passes_below (λ m. strtoul (c_string (mode_string m)) == m) 512 mode h reads_modes)

-- Over an umask(2) that keeps nine bits and returns what it had, whatever mask is set, `umask` of
-- the text that it returned sets the mask that there was before.
pub set_umask-set_umask {ℓ} :
    {K : Type ℓ} (umask : K → ℕ → ℕ × K) (mask : K → ℕ)
    → IsUmask umask mask
    → (k : K) (arg : List ℕ)
    → (let first = set_umask umask k arg in mask (set_umask umask first.1 first.0).1 ≡ mask k)
unfolding set_umask
set_umask-set_umask umask mask laws k arg =
    let mode = strtoul (c_string arg) % 2 ^ 32 in
    let told = strtoul-mode_string (mask k) (laws.small k) in
    let h = laws.small k in
    let low : (mask k % 2 ^ 32) % 512 ≡ mask k = omega (arith, h) in
    laws.behind (umask k mode).1 _ ∙ rw (laws.before k mode, told) low
