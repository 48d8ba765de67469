-- ===== src/Signal/Fd/Close.antt =====
-- The descriptor of signalfd(2) is closed once.
use prosody.Base.{◌≡◌, refl, true, false, some, arith}
use prosody.Base.Int.{ℤ, negsuc, eq_ℤ}
use prosody.Base.Lua.{nil, integer}
use prosody.Signal.Fd.{Kernel, Lsignalfd, open_signalfd, close_signalfd, getfd}

-- An object that `l_signalfd` gives holds the descriptor that signalfd(2) gave, and `getfd` tells it.
-- Where close(2) succeeds on it and fails for -1 without effect, `close` returns true and `getfd` nil
-- from then on, and each later `close`, also at garbage collection, has no effect and returns false.
pub close_signalfd-once {ℓ} :
    {K : Type ℓ} (kernel : Kernel K) (k k1 k2 : K) (sig : ℤ) (sfd : Lsignalfd)
    → open_signalfd kernel k sig ≡ (some sfd, k1)
    → ((k' : K) → kernel.close k' (negsuc 0) ≡ (false, k'))
    → (kernel.close k2 sfd.fd).0 ≡ true
    → (getfd sfd ≡ integer sfd.fd)
      × (sfd.fd ≡ (kernel.signalfd (kernel.sigprocmask k sig).1 sig).0)
      × (let closed = close_signalfd kernel k2 sfd in
          (closed.0 ≡ true)
          × (getfd closed.1 ≡ nil)
          × (closed.2 ≡ (kernel.close k2 sfd.fd).1)
          × ((k' : K) → close_signalfd kernel k' closed.1 ≡ (false, closed.1, k')))
unfolding open_signalfd close_signalfd getfd
close_signalfd-once kernel k k1 k2 sig sfd opened bad good =
    let valid : eq_ℤ sfd.fd (negsuc 0) ≡ false = ground (arith, opened) in
    (
      rw valid refl,
      ground (arith, opened),
      (
        ground (arith, good),
        ground (arith, good),
        ground (arith, good),
        λ k'. ground (arith, good, bad k'),
      ),
    )
