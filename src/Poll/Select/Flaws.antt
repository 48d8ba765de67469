-- ===== src/Poll/Select/Flaws.antt =====
-- Where the sets of util-src/poll.c are used out of range, and what an error of select(2) leaves.
use prosody.Base.{
  ℕ, zero, suc, ◌+◌, ◌-◌, ◌≤◌, ◌<◌, ◌≡◌, ◌≢◌, ◌⊎◌, refl, ap, Bool, true, false, ◌||◌, Option, List,
  [], ◌∷◌, arith, Bool-cases, inl, inr,
}
use prosody.Base.Int.{ℤ, pos, negsuc, ◌<ℤ◌, ◌≤ℤ◌}
use prosody.Base.Lua.{ret, fault}
use prosody.Poll.{
  Reply, event, failed, interrupted, Errno, ebadf, eexist, emfile, enoent, eintr, other, Timeout,
  positive,
}
use prosody.Poll.Select.{
  FdSet, SelectState, Answer, error, in_set, told, add, set_events, del, push_event, next_fd,
  after_select, select_for, wait,
}
use prosody.Poll.Select.Tell.{is_pending, report, pending, to_tell, push_loop_lem}

-- `Ladd` of the descriptor FD_SETSIZE reaches a bit outside the sets, in every state; `Lset` and
-- `Ldel` do so for each descriptor that is negative or not below FD_SETSIZE.
pub fault_out_of_range :
    (fd_setsize : ℕ) (s : SelectState)
    → ((wantread wantwrite : Bool) → add fd_setsize s (pos fd_setsize) wantread wantwrite ≡ fault)
      × ((fd : ℤ)
          → (fd <ℤ pos 0) ⊎ (pos fd_setsize ≤ℤ fd)
          → (del fd_setsize s fd ≡ fault)
            × ((wantread wantwrite : Option Bool)
                → set_events fd_setsize s fd wantread wantwrite ≡ fault))
unfolding add del set_events
fault_out_of_range fd_setsize s = (
  λ wantread wantwrite. ground arith,
  λ fd h.
      let out : in_set fd_setsize fd ≡ false = outside fd h in
      (ground (arith, out), λ wantread wantwrite. ground (arith, out)),
)
  where
    outside : (fd : ℤ) → (fd <ℤ pos 0) ⊎ (pos fd_setsize ≤ℤ fd) → in_set fd_setsize fd ≡ false
    outside (pos n) h = ground arith
    outside (negsuc n) h = refl

-- A descriptor that is pending in the range of the loop is one that the loop comes to.
pending_of_is_pending :
    (left fd n : ℕ) (s : SelectState)
    → fd ≤ n
    → n < fd + left
    → is_pending s n ≡ true
    → (m : ℕ) × (rest : List Reply) × (pending left fd s ≡ report s m ∷ rest)
unfolding pending
pending_of_is_pending zero fd n s h k p = absurd (omega arith)
pending_of_is_pending (suc left) fd n s h k p = elim (Bool-cases (is_pending s fd)) [
  | inl q ↦ (fd, pending left (fd + 1) s, ground arith)
  | inr q ↦
      let apart : fd ≢ n = λ e. ground (arith, ap (is_pending s) e) in
      let (m, rest, e) =
        pending_of_is_pending left (fd + 1) n s (omega (arith, apart)) (omega arith) p in
      (m, rest, ground (arith, e))
]

-- Whatever is pending behind `processed`, `Lwait` tells an event without a call of select(2).
wait_of_pending :
    (fd_setsize n : ℕ) (s : SelectState)
    → next_fd s ≤ n
    → n < fd_setsize
    → is_pending s n ≡ true
    → (m : ℕ) × (a : Bool) × (b : Bool) × (s' : SelectState) × ((timeout : Timeout)
          (select : FdSet → FdSet → FdSet → Answer)
        → wait fd_setsize s timeout select ≡ ret (event (pos m) a b, s'))
unfolding wait push_event
wait_of_pending fd_setsize n s h k p =
    let left = fd_setsize - next_fd s in
    let (m, rest, e) = pending_of_is_pending left (next_fd s) n s h (omega arith) p in
    let t = (push_loop_lem left (next_fd s) s).1 (report s m) rest e in
    (m, s.readable m || s.err m, s.writable m, told s t.0, λ timeout select. ground (arith, t.3))

after_error :
    (fd_setsize : ℕ) (s : SelectState) (x : Errno)
    → (after_select fd_setsize s (error x) ≡ ret (failed x, s))
      ⊎ (after_select fd_setsize s (error x) ≡ ret (interrupted, s))
unfolding after_select
after_error fd_setsize s eintr = inr refl
after_error fd_setsize s ebadf = inl refl
after_error fd_setsize s eexist = inl refl
after_error fd_setsize s emfile = inl refl
after_error fd_setsize s enoent = inl refl
after_error fd_setsize s (other n) = inl refl

-- Where nothing is left to tell and select(2) returns an error and leaves the sets as they were
-- given, `Lwait` returns that error; but if a descriptor behind `processed` is watched, the next call
-- of `Lwait` tells an event, whatever the timeout, which select(2) never reported.
pub wait_after_error :
    (fd_setsize n : ℕ) (s : SelectState) (select : FdSet → FdSet → FdSet → Answer) (x : Errno)
    → to_tell fd_setsize s ≡ []
    → (select s.wantread s.wantwrite s.all
        ≡ record { result = error x; readable = s.wantread; writable = s.wantwrite; err = s.all })
    → next_fd s ≤ n
    → n < fd_setsize
    → s.all n ≡ true
    → (s' : SelectState) × ((wait fd_setsize s positive select ≡ ret (failed x, s'))
        ⊎ (wait fd_setsize s positive select ≡ ret (interrupted, s')))
      × (m : ℕ) × (a : Bool) × (b : Bool) × (s'' : SelectState) × ((timeout : Timeout)
            (select' : FdSet → FdSet → FdSet → Answer)
          → wait fd_setsize s' timeout select' ≡ ret (event (pos m) a b, s''))
unfolding wait push_event select_for
wait_after_error fd_setsize n s select x none_left asked h k watched =
    let s' = record s { readable = s.wantread; writable = s.wantwrite; err = s.all } in
    let silent = (push_loop_lem (fd_setsize - next_fd s) (next_fd s) s).0 none_left in
    let (m, a, b, s'', told_next) = wait_of_pending fd_setsize n s' h k (ground (arith, watched)) in
    (s', ground (arith, silent, asked, after_error fd_setsize s' x), m, a, b, s'', told_next)
