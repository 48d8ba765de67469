-- ===== src/Pposix/Umask/Tests.antt =====
-- The mask as the state of a small system, and the theorem at it.
use prosody.Base.{ℕ, ◌%◌, ◌<◌, ◌≡◌, refl, codes, arith}
use prosody.Pposix.Umask.{skip_spaces, digits_of, signed, strtoul, octal, mode_string, set_umask}
use prosody.Pposix.Umask.RoundTrip.{IsUmask, set_umask-set_umask}

abbrev Nine : Type 0
Nine = (m : ℕ) × (m < 512)

nine_bits : ℕ → Nine
nine_bits m = (m % 512, omega arith)

abbrev small : Nine → ℕ → ℕ × Nine
small k mode = (k.0, nine_bits mode)

abbrev mask : Nine → ℕ
mask k = k.0

small-IsUmask : IsUmask small mask
unfolding nine_bits
small-IsUmask = record { small = λ k. k.1; before = λ k mode. refl; behind = λ k mode. refl }

set_umask-set_umask_example :
    mask
      (set_umask small
        (set_umask small (nine_bits 18) (codes "027")).1
        (set_umask small (nine_bits 18) (codes "027")).0).1
    ≡ mask (nine_bits 18)
set_umask-set_umask_example =
    set_umask-set_umask small mask small-IsUmask (nine_bits 18) (codes "027")

tells : (set_umask small (nine_bits 18) (codes "027")).0 ≡ codes "022"
unfolding set_umask mode_string octal nine_bits
tells = refl

reads : strtoul (codes " 0750x") ≡ 488
unfolding strtoul signed digits_of skip_spaces
reads = refl
