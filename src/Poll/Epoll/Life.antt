-- ===== src/Poll/Epoll/Life.antt =====
-- `Lnew` and `Lgc`: the descriptor of an epoll instance is opened once and closed once.
use prosody.Base.{◌≡◌, refl, false, List, none, some, arith}
use prosody.Base.Int.{pos, negsuc, leb_ℤ}
use prosody.Base.Lua.{ret, raise}
use prosody.Poll.{Errno, Reply}
use prosody.Poll.Epoll.{EpollEvent, EpollState, Kernel, new, gc}

module _ {ℓ} {K : Type ℓ} (kernel : Kernel K) where
  -- The state that `Lnew` gives holds the descriptor that epoll_create1(2) gave, which is above 0.
  new-opened :
      (k : K) (storage : List EpollEvent) (s : EpollState) (r : Reply) (k' : K)
      → new kernel k storage ≡ (some s, r, k')
      → (s.processed ≡ 0)
        × (s.epoll_fd ≡ (kernel.epoll_create1 k).0)
        × (leb_ℤ s.epoll_fd (pos 0) ≡ false)
  unfolding new
  new-opened k storage s r k' e = ground arith

  -- Whatever happens between, `Lgc` closes the descriptor that `Lnew` opened, and where that
  -- succeeds a second `Lgc` makes no call of the kernel; where it fails it raises an error.
  pub gc-once :
      (k0 k k1 : K) (storage : List EpollEvent) (s s' : EpollState) (r : Reply)
      → new kernel k0 storage ≡ (some s, r, k1)
      → s'.epoll_fd ≡ s.epoll_fd
      → let closed = kernel.close k (kernel.epoll_create1 k0).0 in
        let collected = record s' { epoll_fd = negsuc 0 } in
        (closed.0 ≡ none
          → (gc kernel k s' ≡ (ret collected, closed.1))
            × ((k2 : K) → gc kernel k2 collected ≡ (ret collected, k2)))
        × ((x : Errno) → closed.0 ≡ some x → gc kernel k s' ≡ (raise, closed.1))
  unfolding gc
  gc-once k0 k k1 storage s s' r e same =
      let n = new-opened k0 storage s r k1 e in
      (λ h. (ground (arith, n.1, n.2, h), λ k2. refl), λ x h. ground (arith, n.1, n.2, h))
