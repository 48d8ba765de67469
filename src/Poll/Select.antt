-- ===== src/Poll/Select.antt =====
-- util-src/poll.c with USE_SELECT: sets of descriptors, one bit for each below FD_SETSIZE, which is
-- a parameter. FD_SET, FD_CLR and FD_ISSET of any other descriptor are a fault.
-- select(2) is a parameter: what it makes of the three sets that it is given.
pub mod Inv
pub mod Tell
pub mod Watched
pub mod Flaws
mod Tests
use prosody.Base.{
  ℕ, zero, suc, ◌+◌, ◌-◌, Bool, true, false, ◌||◌, Option, none, some, ltb, ◌==◌, if◌then◌else◌,
}
use prosody.Base.Int.{ℤ, pos, negsuc, pos_part, ◌+ℤ◌, ltb_ℤ}
use prosody.Base.Lua.{Outcome, ret, raise, fault}
use prosody.Poll.{
  Errno, ebadf, eexist, enoent, eintr, Reply, done, event, timed_out, interrupted, failed, nothing,
  Timeout, negative, zero_time, positive,
}

abbrev pub FdSet : Type 0
FdSet = ℕ → Bool

abbrev pub empty : FdSet
empty n = false

-- FD_SET and FD_CLR
abbrev pub put : FdSet → ℕ → Bool → FdSet
put set n b = λ k. if n == k then b else set k

pub record SelectState : Type 0 where
  pub processed : ℤ
  pub wantread : FdSet
  pub wantwrite : FdSet
  pub readable : FdSet
  pub writable : FdSet
  pub all : FdSet
  pub err : FdSet

-- `Lnew`
pub new : ℕ → SelectState
new fd_setsize = record {
  processed = pos fd_setsize;
  wantread = empty;
  wantwrite = empty;
  readable = empty;
  writable = empty;
  all = empty;
  err = empty;
}

-- Whether the bit of a descriptor lies in an `fd_set`.
abbrev pub in_set : ℕ → ℤ → Bool
in_set fd_setsize (pos n) = ltb n fd_setsize
in_set fd_setsize (negsuc n) = false

abbrev pub added : SelectState → ℕ → Bool → Bool → SelectState
added s n wantread wantwrite = record s {
  readable = put s.readable n false;
  writable = put s.writable n false;
  err = put s.err n false;
  all = put s.all n true;
  wantread = put s.wantread n wantread;
  wantwrite = put s.wantwrite n wantwrite;
}

-- `Ladd`
pub add : ℕ → SelectState → ℤ → Bool → Bool → Outcome (Reply × SelectState)
add fd_setsize s fd wantread wantwrite =
    if ltb_ℤ fd (pos 0)
    then ret (failed ebadf, s)
    else if ltb_ℤ (pos fd_setsize) fd
    then ret (failed ebadf, s)
    else if in_set fd_setsize fd
    then (if s.all (pos_part fd)
        then ret (failed eexist, s)
        else ret (done, added s (pos_part fd) wantread wantwrite))
    else fault

-- An argument that is absent or nil changes nothing.
abbrev pub put_option : FdSet → ℕ → Option Bool → FdSet
put_option set n none = set
put_option set n (some b) = put set n b

-- `Lset`
pub set_events : ℕ → SelectState → ℤ → Option Bool → Option Bool → Outcome (Reply × SelectState)
set_events fd_setsize s fd wantread wantwrite =
    if in_set fd_setsize fd
    then (if s.all (pos_part fd)
        then ret (
          done,
          record s {
            wantread = put_option s.wantread (pos_part fd) wantread;
            wantwrite = put_option s.wantwrite (pos_part fd) wantwrite;
          },
        )
        else ret (failed enoent, s))
    else fault

abbrev pub removed : SelectState → ℕ → SelectState
removed s n = record s {
  wantread = put s.wantread n false;
  wantwrite = put s.wantwrite n false;
  readable = put s.readable n false;
  writable = put s.writable n false;
  all = put s.all n false;
  err = put s.err n false;
}

-- `Ldel`
pub del : ℕ → SelectState → ℤ → Outcome (Reply × SelectState)
del fd_setsize s fd =
    if in_set fd_setsize fd
    then (if s.all (pos_part fd)
        then ret (done, removed s (pos_part fd))
        else ret (failed enoent, s))
    else fault

abbrev pub told : SelectState → ℕ → SelectState
told s n = record s {
  readable = put s.readable n false;
  writable = put s.writable n false;
  err = put s.err n false;
  processed = pos n;
}

-- The loop of `Lpushevent` from the descriptor `fd` on, with `left` descriptors to go.
pub push_loop : ℕ → ℕ → SelectState → Reply × SelectState
push_loop zero fd s = (nothing, s)
push_loop (suc left) fd s =
    let rest = push_loop left (fd + 1) s in
    if s.readable fd || s.writable fd || s.err fd
    then (event (pos fd) (s.readable fd || s.err fd) (s.writable fd), told s fd)
    else rest

-- `state->processed + 1`, which is never negative.
abbrev pub next_fd : SelectState → ℕ
next_fd s = pos_part (s.processed +ℤ pos 1)

-- `Lpushevent`
pub push_event : ℕ → SelectState → Reply × SelectState
push_event fd_setsize s = push_loop (fd_setsize - next_fd s) (next_fd s) s

-- What select(2) comes back with: a positive number, 0, or an error; and the sets as it leaves them.
pub data Result : Type 0 where
  ready no_event : Result
  error : Errno → Result

pub record Answer : Type 0 where
  pub result : Result
  pub readable : FdSet
  pub writable : FdSet
  pub err : FdSet

-- The state with the sets that select(2) leaves.
abbrev pub answered : SelectState → Answer → SelectState
answered s a = record s { readable = a.readable; writable = a.writable; err = a.err }

-- `Lwait` behind select(2), by what that returned.
pub after_select : ℕ → SelectState → Result → Outcome (Reply × SelectState)
after_select fd_setsize s ready = ret (push_event fd_setsize (record s { processed = negsuc 0 }))
after_select fd_setsize s no_event = ret (timed_out, s)
after_select fd_setsize s (error eintr) = ret (interrupted, s)
after_select fd_setsize s (error e) = ret (failed e, s)

-- `Lwait` behind its first `Lpushevent`, which found nothing. select(2) is given copies of
-- `wantread`, `wantwrite` and `all`.
pub select_for :
    ℕ → SelectState → Timeout → (FdSet → FdSet → FdSet → Answer) → Outcome (Reply × SelectState)
select_for fd_setsize s negative select = raise
select_for fd_setsize s zero_time select = ret (timed_out, s)
select_for fd_setsize s positive select =
    let a = select s.wantread s.wantwrite s.all in after_select fd_setsize (answered s a) a.result

-- `Lwait`
pub wait :
    ℕ → SelectState → Timeout → (FdSet → FdSet → FdSet → Answer) → Outcome (Reply × SelectState)
wait fd_setsize s timeout select =
    let r = push_event fd_setsize s in
    elim r.0 [ nothing ↦ select_for fd_setsize r.1 timeout select | _ ↦ ret r ]
