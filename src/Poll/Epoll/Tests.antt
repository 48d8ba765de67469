-- ===== src/Poll/Epoll/Tests.antt =====
-- `util.poll` over a small kernel, and the theorems at it.
use prosody.Base.{ℕ, ◌+◌, ◌≡◌, refl, true, false, List, [], ◌∷◌, none, some, replicate, arith}
use prosody.Base.Int.{pos}
use prosody.Base.Lua.{ret}
use prosody.Poll.{done, event, ebadf, no_events, positive}
use prosody.Poll.Epoll.{EpollEvent, EpollState, Kernel, got, unwritten, new}
use prosody.Poll.Epoll.Drain.{waits, wait-backwards}

abbrev two_ready : List EpollEvent
two_ready =
    record { fd = pos 5; events = record no_events { pollin = true } }
    ∷ record { fd = pos 6; events = record no_events { pollout = true } }
    ∷ []

-- A kernel that counts its calls: two descriptors are always ready, and the descriptor 3 is open.
abbrev counting : Kernel ℕ
counting = record {
  epoll_ctl = λ k epfd op fd mask. (none, k + 1);
  epoll_wait = λ k epfd. (got two_ready, k + 1);
  epoll_create1 = λ k. (pos 3, ebadf, k + 1);
  close = λ k fd. (none, k + 1);
}

abbrev opened : EpollState
opened = record { processed = 0; epoll_fd = pos 3; events = replicate 4 unwritten }

opens : new counting 0 (replicate 4 unwritten) ≡ (some opened, done, 1)
unfolding new
opens = refl

wait-backwards_example : waits counting 2 7 opened positive ≡ (
  ret (
    event (pos 6) false true ∷ event (pos 5) true false ∷ [],
    record opened {
      events =
          record { fd = pos 5; events = record no_events { pollin = true } }
          ∷ record { fd = pos 6; events = record no_events { pollout = true } }
          ∷ unwritten
          ∷ unwritten
          ∷ [];
    },
  ),
  8,
)
wait-backwards_example =
    wait-backwards counting 7 8 opened
      (record { fd = pos 5; events = record no_events { pollin = true } })
      (record { fd = pos 6; events = record no_events { pollout = true } } ∷ []) refl refl
      (omega arith)
