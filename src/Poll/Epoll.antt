-- ===== src/Poll/Epoll.antt =====
-- util-src/poll.c with USE_EPOLL: the kernel keeps the watched descriptors, and `events` holds what
-- epoll_wait(2) wrote last, of which the first `processed` items are still to be told.
-- The system calls are parameters, over a state of the kernel's own.
pub mod Drain
pub mod Life
mod Tests
use prosody.Base.{
  ℕ, zero, suc, ◌+◌, ◌-◌, Bool, true, false, ◌||◌, List, [], ◌∷◌, ◌++◌, Option, none, some, length,
  get_or, drop, leb, if◌then◌else◌,
}
use prosody.Base.Int.{ℤ, pos, negsuc, leb_ℤ, eq_ℤ}
use prosody.Base.Lua.{Outcome, ret, raise, fault}
use prosody.Poll.{
  Errno, ebadf, eintr, Reply, done, event, timed_out, interrupted, failed, nothing, Events,
  no_events, Timeout, negative, zero_time, positive,
}
use prosody.Base.Int.{ltb_ℤ}

-- EPOLL_CTL_ADD, EPOLL_CTL_MOD and EPOLL_CTL_DEL
pub data Op : Type 0 where
  ctl_add ctl_mod ctl_del : Op

-- An item of `struct epoll_event`: `data.fd` and `events`.
pub record EpollEvent : Type 0 where
  pub fd : ℤ
  pub events : Events

pub record EpollState : Type 0 where
  pub processed : ℕ
  pub epoll_fd : ℤ
  pub events : List EpollEvent

-- What epoll_wait(2) comes back with: the items that it wrote, none at the timeout, or an error.
pub data Answer : Type 0 where
  got : List EpollEvent → Answer
  error : Errno → Answer

-- The system calls: `none` is a return of 0, and `epoll_create1` gives its result and errno.
pub record Kernel {ℓ} (K : Type ℓ) : Type ℓ where
  pub epoll_ctl : K → ℤ → Op → ℤ → Events → Option Errno × K
  pub epoll_wait : K → ℤ → Answer × K
  pub epoll_create1 : K → ℤ × Errno × K
  pub close : K → ℤ → Option Errno × K

-- `(wantread ? EPOLLIN : 0) | (wantwrite ? EPOLLOUT : 0)`, then `|= EPOLLERR | EPOLLHUP | EPOLLRDHUP`
abbrev pub wanted : Bool → Bool → Events
wanted wantread wantwrite = record no_events {
  pollin = wantread;
  pollout = wantwrite;
  pollerr = true;
  pollhup = true;
  pollrdhup = true;
}

abbrev pub unwritten : EpollEvent
unwritten = record { fd = pos 0; events = no_events }

-- What an `epoll_ctl` is answered by.
reply_of : Option Errno → Reply
reply_of none = done
reply_of (some e) = failed e

module _ {ℓ} {K : Type ℓ} (kernel : Kernel K) where
  -- `Lnew`: the array is the memory of the userdata, which is not initialised.
  pub new : K → List EpollEvent → Option EpollState × Reply × K
  new k storage =
      let (fd, e, k') = kernel.epoll_create1 k in
      if leb_ℤ fd (pos 0)
      then (none, failed e, k')
      else (some (record { processed = 0; epoll_fd = fd; events = storage }), done, k')

  -- `Ladd`
  pub add : K → EpollState → ℤ → Bool → Bool → Reply × K
  add k s fd wantread wantwrite =
      if ltb_ℤ fd (pos 0)
      then (failed ebadf, k)
      else let r = kernel.epoll_ctl k s.epoll_fd ctl_add fd (wanted wantread wantwrite) in
        (reply_of r.0, r.1)

  -- `Lset`
  pub set_events : K → EpollState → ℤ → Bool → Bool → Reply × K
  set_events k s fd wantread wantwrite =
      let r = kernel.epoll_ctl k s.epoll_fd ctl_mod fd (wanted wantread wantwrite) in
      (reply_of r.0, r.1)

  -- `Ldel`; the mask that it passes is not initialised.
  pub del : K → EpollState → ℤ → Events → Reply × K
  del k s fd mask = let r = kernel.epoll_ctl k s.epoll_fd ctl_del fd mask in (reply_of r.0, r.1)

  -- `Lgc`
  pub gc : K → EpollState → Outcome EpollState × K
  gc k s =
      if eq_ℤ s.epoll_fd (negsuc 0)
      then (ret s, k)
      else let r = kernel.close k s.epoll_fd in
        elim r.0 [ none ↦ (ret (record s { epoll_fd = negsuc 0 }), r.1) | some e ↦ (raise, r.1) ]

-- `Lpushevent`
pub push_event : EpollState → Reply × EpollState
push_event s = elim s.processed [
  | zero ↦ (nothing, s)
  | suc i ↦
      let e = get_or s.events i unwritten in
      (
        event e.fd (e.events.pollin || e.events.pollhup || e.events.pollrdhup || e.events.pollerr)
            e.events.pollout,
        record s { processed = i },
      )
]

-- `Lwait` behind epoll_wait(2), which writes the first items of the array; more items than the
-- array has would be written behind it.
pub after_wait : EpollState → Answer → Outcome (Reply × EpollState)
after_wait s (got []) = ret (timed_out, s)
after_wait s (got (e ∷ es)) =
    let n = length (e ∷ es) in
    if leb n (length s.events)
    then ret (push_event (record s { events = e ∷ es ++ drop n s.events; processed = n }))
    else fault
after_wait s (error eintr) = ret (interrupted, s)
after_wait s (error e) = ret (failed e, s)

module _ {ℓ} {K : Type ℓ} (kernel : Kernel K) where
  -- `Lwait` behind its first `Lpushevent`, which found nothing.
  pub wait_for : K → EpollState → Timeout → Outcome (Reply × EpollState) × K
  wait_for k s negative = (raise, k)
  wait_for k s zero_time = (ret (timed_out, s), k)
  wait_for k s positive = let r = kernel.epoll_wait k s.epoll_fd in (after_wait s r.0, r.1)

  -- `Lwait`
  pub wait : K → EpollState → Timeout → Outcome (Reply × EpollState) × K
  wait k s timeout =
      let r = push_event s in elim r.0 [ nothing ↦ wait_for k r.1 timeout | _ ↦ (ret r, k) ]
