-- ===== src/Poll/Array.antt =====
-- util-src/poll.c with USE_POLL: an array of `struct pollfd`, of which the first `count` are
-- watched. Its size, MAX_WATCHED, is an option of the build and so a parameter.
-- poll(2) is a parameter: what it answers to the watched part of the array.
pub mod Inv
pub mod Add
pub mod Set
pub mod Del
pub mod Wait
pub mod WaitInv
mod Tests
use prosody.Base.{
  ℕ, zero, suc, ◌+◌, ◌-◌, Bool, true, false, ◌||◌, ◌&&◌, not, List, [], ◌∷◌, Option, none, some,
  get_or, set, take, replicate, ltb, leb, ◌==◌, if◌then◌else◌,
}
use prosody.Base.Int.{ℤ, pos, negsuc, pos_part, ltb_ℤ, eq_ℤ}
use prosody.Base.Lua.{Outcome, ret, raise}
use prosody.Poll.{
  Errno, ebadf, eexist, emfile, enoent, eintr, Reply, done, event, timed_out, interrupted, failed,
  nothing, Events, no_events, is_set, Timeout, negative, zero_time, positive,
}

pub record Pollfd : Type 0 where
  pub fd : ℤ
  pub events : Events
  pub revents : Events

pub record PollState : Type 0 where
  pub processed : ℤ
  pub count : ℕ
  pub events : List Pollfd

-- -1 marks a slot that is not in use.
abbrev pub unused : Pollfd
unused = record { fd = negsuc 0; events = no_events; revents = no_events }

abbrev pub slot : PollState → ℕ → Pollfd
slot s i = get_or s.events i unused

-- `(wantread ? POLLIN : 0) | (wantwrite ? POLLOUT : 0)`
abbrev pub wanted : Bool → Bool → Events
wanted wantread wantwrite = record no_events { pollin = wantread; pollout = wantwrite }

-- `Lnew`
pub new : ℕ → PollState
new max_watched = record { processed = negsuc 0; count = 0; events = replicate max_watched unused }

-- The loops of `Ladd` and `Ldel` that look for a descriptor, from index `i` on.
pub find_fd : ℕ → ℕ → PollState → ℤ → Option ℕ
find_fd zero i s fd = none
find_fd (suc left) i s fd =
    let rest = find_fd left (i + 1) s fd in if eq_ℤ (slot s i).fd fd then some i else rest

-- The loop of `Lset`, which also stops at a slot that is not in use.
pub find_fd_in_use : ℕ → ℕ → PollState → ℤ → Option ℕ
find_fd_in_use zero i s fd = none
find_fd_in_use (suc left) i s fd =
    let rest = find_fd_in_use left (i + 1) s fd in
    if eq_ℤ (slot s i).fd fd then some i else if eq_ℤ (slot s i).fd (negsuc 0) then none else rest

-- `Ladd`
pub add : ℕ → PollState → ℤ → Bool → Bool → Reply × PollState
add max_watched s fd wantread wantwrite =
    if ltb_ℤ fd (pos 0) then (failed ebadf, s) else elim (find_fd s.count 0 s fd) [
      | some i ↦ (failed eexist, s)
      | none ↦ if leb max_watched s.count then (failed emfile, s) else (
        done,
        record s {
          events =
              set s.events s.count
                (record { fd = fd; events = wanted wantread wantwrite; revents = no_events });
          count = s.count + 1;
        },
      )
    ]

-- `Lset`
pub set_events : PollState → ℤ → Bool → Bool → Reply × PollState
set_events s fd wantread wantwrite = elim (find_fd_in_use s.count 0 s fd) [
  | none ↦ (failed enoent, s)
  | some i ↦ (
    done,
    record s { events = set s.events i (record (slot s i) { events = wanted wantread wantwrite }) },
  )
]

-- The last item is copied over the removed one, and then its slot is marked: the two may be one.
pub remove : PollState → ℕ → PollState
remove s i =
    let last = s.count - 1 in
    let moved = set s.events i (slot s last) in
    record s {
      events = set moved last (record (get_or moved last unused) { fd = negsuc 0 });
      count = last;
    }

-- `Ldel`
pub del : PollState → ℤ → Reply × PollState
del s fd =
    if s.count == 0
    then (failed enoent, s)
    else elim (find_fd s.count 0 s fd) [ none ↦ (failed enoent, s) | some i ↦ (done, remove s i) ]

-- The loop of `Lpushevent`, over the indices below the first argument, downwards.
pub push_loop : ℕ → PollState → Reply × PollState
push_loop zero s = (nothing, s)
push_loop (suc i) s =
    let e = slot s i in
    let rest = push_loop i s in
    if not (eq_ℤ e.fd (negsuc 0)) && is_set e.revents
    then (
      event e.fd (e.revents.pollin || e.revents.pollhup || e.revents.pollerr) e.revents.pollout,
      record s { events = set s.events i (record e { revents = no_events }); processed = pos i },
    )
    else rest

-- `Lpushevent`
pub push_event : PollState → Reply × PollState
push_event s = push_loop (pos_part s.processed) s

-- What poll(2) comes back with: the new `revents` of the array that it was given, the end of the
-- timeout, or an error.
pub data Answer : Type 0 where
  ready : List Events → Answer
  no_event : Answer
  error : Errno → Answer

-- The kernel writes `revents` of the watched items, one value for each.
pub write_revents : List Pollfd → List Events → List Pollfd
write_revents [] rs = []
write_revents (e ∷ es) [] = e ∷ es
write_revents (e ∷ es) (r ∷ rs) = record e { revents = r } ∷ write_revents es rs

-- `Lwait` behind poll(2), by what that answers.
pub after_poll : PollState → Answer → Outcome (Reply × PollState)
after_poll s (ready rs) =
    ret (push_event (record s { events = write_revents s.events rs; processed = pos s.count }))
after_poll s no_event = ret (timed_out, s)
after_poll s (error eintr) = ret (interrupted, s)
after_poll s (error e) = ret (failed e, s)

-- `Lwait` behind its first `Lpushevent`, which found nothing.
pub poll_for : PollState → Timeout → (List Pollfd → Answer) → Outcome (Reply × PollState)
poll_for s negative poll = raise
poll_for s zero_time poll = ret (timed_out, s)
poll_for s positive poll = after_poll s (poll (take s.count s.events))

-- `Lwait`
pub wait : PollState → Timeout → (List Pollfd → Answer) → Outcome (Reply × PollState)
wait s timeout poll =
    let r = push_event s in elim r.0 [ nothing ↦ poll_for r.1 timeout poll | _ ↦ ret r ]
