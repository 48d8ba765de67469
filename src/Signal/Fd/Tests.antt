-- ===== src/Signal/Fd/Tests.antt =====
-- Objects of signalfd over a small kernel, and the theorems at it.
use prosody.Base.{ℕ, ◌+◌, ◌≡◌, refl, Bool, true, false, some}
use prosody.Base.Int.{ℤ, pos, negsuc}
use prosody.Base.Lua.{nil, integer}
use prosody.Signal.Fd.{Kernel, Lsignalfd, open_signalfd, close_signalfd, getfd}
use prosody.Signal.Fd.Close.{close_signalfd-once}

-- A kernel that opens the descriptors 5 and 6, closes all but negative ones, and counts its calls.
abbrev small : Kernel ℕ
small = record {
  sigprocmask = λ k sig. (true, k + 1);
  signalfd = λ k sig. (pos 5, k + 1);
  read = λ k fd. (some (pos 15), k + 1);
  close = λ k fd. if_open k fd;
  signal = λ k sig. (true, k + 1);
  pipe = λ k. (some (pos 5, pos 6), k + 1);
}
  where
    if_open : ℕ → ℤ → Bool × ℕ
    if_open k (pos n) = (true, k + 1)
    if_open k (negsuc n) = (false, k)

abbrev opened : Lsignalfd
opened = record { fd = pos 5; mask = pos 15 }

opens : open_signalfd small 0 (pos 15) ≡ (some opened, 2)
unfolding open_signalfd
opens = refl

close_signalfd-once_example :
    (getfd opened ≡ integer (pos 5))
    × (pos 5 ≡ (small.signalfd (small.sigprocmask 0 (pos 15)).1 (pos 15)).0)
    × (let closed = close_signalfd small 9 opened in
        (closed.0 ≡ true)
        × (getfd closed.1 ≡ nil)
        × (closed.2 ≡ 10)
        × ((k' : ℕ) → close_signalfd small k' closed.1 ≡ (false, closed.1, k')))
close_signalfd-once_example =
    close_signalfd-once small 0 2 9 (pos 15) opened opens (λ k'. refl) refl
