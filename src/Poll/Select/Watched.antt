-- ===== src/Poll/Select/Watched.antt =====
-- `Lwait` over the sets, and every sequence of calls: only what is watched is ever told.
use prosody.Base.{
  ℕ, zero, suc, ◌+◌, ◌-◌, ◌≡◌, ◌⊎◌, refl, sym, subst, Bool, true, ◌||◌, Option, arith, Bool-cases,
  inl, inr,
}
use prosody.Base.Int.{ℤ, pos, negsuc}
use prosody.Base.Lua.{Outcome, ret, raise, fault}
use prosody.Poll.{Reply, event, nothing, eintr, Timeout, positive, negative, zero_time}
use prosody.Poll.Select.{
  FdSet, SelectState, Answer, Result, ready, no_event, error, answered, new, add, set_events, del,
  push_loop, push_event, next_fd, after_select, select_for, wait,
}
use prosody.Poll.Select.Inv.{
  Within, IsValid, IsSelect, told-IsValid, add-IsValid, set_events-IsValid, del-IsValid,
}

-- What is told is watched, and the sets stay as they should be.
abbrev TellsWatched : SelectState → Reply × SelectState → Type 0
TellsWatched s result =
    IsValid result.1
    × ((fd : ℤ) (a b : Bool) → result.0 ≡ event fd a b → (n : ℕ) × (fd ≡ pos n) × (s.all n ≡ true))

push_loop-TellsWatched :
    (left fd : ℕ) (s : SelectState) → IsValid s → TellsWatched s (push_loop left fd s)
unfolding push_loop
push_loop-TellsWatched zero fd s v = (v, λ f a b e. absurd (cc))
push_loop-TellsWatched (suc left) fd s v =
    elim (Bool-cases (s.readable fd || s.writable fd || s.err fd)) [
      | inl h ↦
          let watched : s.all fd ≡ true =
            ground (arith, v.readables fd, v.writables fd, v.errors fd) in
          rw h (told-IsValid fd v, λ f a b e. (fd, ground arith, watched))
      | inr h ↦ rw h (push_loop-TellsWatched left (fd + 1) s v)
    ]

-- The result of `Lwait`, where it returns one.
abbrev OnRet {ℓ} : {A : Type ℓ} → (A → Type 0) → Outcome A → Type 0
OnRet Q (ret a) = Q a
OnRet Q raise = Unit
OnRet Q fault = Unit

push_event-TellsWatched :
    (fd_setsize : ℕ) (s : SelectState) → IsValid s → TellsWatched s (push_event fd_setsize s)
unfolding push_event
push_event-TellsWatched fd_setsize s v =
    push_loop-TellsWatched (fd_setsize - next_fd s) (next_fd s) s v

after_select-TellsWatched :
    (fd_setsize : ℕ) (s : SelectState) (result : Result)
    → IsValid s
    → OnRet (TellsWatched s) (after_select fd_setsize s result)
unfolding after_select
after_select-TellsWatched fd_setsize s ready v =
    push_event-TellsWatched fd_setsize (record s { processed = negsuc 0 })
      (record {
        reads = v.reads;
        writes = v.writes;
        readables = v.readables;
        writables = v.writables;
        errors = v.errors;
      })
after_select-TellsWatched fd_setsize s no_event v = (v, λ f a b e. absurd (cc))
after_select-TellsWatched fd_setsize s (error eintr) v = (v, λ f a b e. absurd (cc))
after_select-TellsWatched fd_setsize s (error x) v = (v, λ f a b e. absurd (ground (arith, e)))

answered-IsValid :
    {s : SelectState} (a : Answer)
    → IsValid s
    → Within a.readable s.wantread × Within a.writable s.wantwrite × Within a.err s.all
    → IsValid (answered s a)
answered-IsValid a v w = record {
  reads = v.reads;
  writes = v.writes;
  readables = λ k h. v.reads k (w.0 k h);
  writables = λ k h. v.writes k (w.1 k h);
  errors = w.2;
}

select_for-TellsWatched :
    (fd_setsize : ℕ) (s : SelectState) (timeout : Timeout) (select : FdSet → FdSet → FdSet → Answer)
    → IsSelect select
    → IsValid s
    → OnRet (TellsWatched s) (select_for fd_setsize s timeout select)
unfolding select_for
select_for-TellsWatched fd_setsize s negative select w v = tt
select_for-TellsWatched fd_setsize s zero_time select w v = (v, λ f a b e. absurd (cc))
select_for-TellsWatched fd_setsize s positive select w v =
    let a = select s.wantread s.wantwrite s.all in
    after_select-TellsWatched fd_setsize (answered s a) a.result
      (answered-IsValid a v (w s.wantread s.wantwrite s.all))

push_loop-nothing :
    (left fd : ℕ) (s : SelectState)
    → (push_loop left fd s).0 ≡ nothing
    → (push_loop left fd s).1 ≡ s
unfolding push_loop
push_loop-nothing zero fd s e = refl
push_loop-nothing (suc left) fd s e = ground (arith, e, push_loop-nothing left (fd + 1) s)

wait_cases :
    (fd_setsize : ℕ) (s : SelectState) (timeout : Timeout) (select : FdSet → FdSet → FdSet → Answer)
    → (wait fd_setsize s timeout select ≡ ret (push_event fd_setsize s))
      ⊎ (wait fd_setsize s timeout select ≡ select_for fd_setsize s timeout select)
unfolding wait push_event
wait_cases fd_setsize s timeout select =
    ground (arith, push_loop-nothing (fd_setsize - next_fd s) (next_fd s) s)

wait-TellsWatched :
    (fd_setsize : ℕ) (s : SelectState) (timeout : Timeout) (select : FdSet → FdSet → FdSet → Answer)
    → IsSelect select
    → IsValid s
    → OnRet (TellsWatched s) (wait fd_setsize s timeout select)
wait-TellsWatched fd_setsize s timeout select w v = elim (wait_cases fd_setsize s timeout select) [
  | inl e ↦ rw e (push_event-TellsWatched fd_setsize s v)
  | inr e ↦ rw e (select_for-TellsWatched fd_setsize s timeout select w v)
]

-- One call of a method that returns or raises an error. It does neither where it reaches outside
-- of the sets: where `Ladd` is given FD_SETSIZE, and where `Lset` or `Ldel` is given a descriptor
-- that is negative or not below FD_SETSIZE. Where the arguments have the right types, `Lwait`
-- alone raises, before it changes a set.
pub data Step (fd_setsize : ℕ) (s s' : SelectState) : Type 0 where
  adds :
      (fd : ℤ) (wantread wantwrite : Bool) (r : Reply)
      → add fd_setsize s fd wantread wantwrite ≡ ret (r, s')
      → Step fd_setsize s s'
  sets :
      (fd : ℤ) (wantread wantwrite : Option Bool) (r : Reply)
      → set_events fd_setsize s fd wantread wantwrite ≡ ret (r, s')
      → Step fd_setsize s s'
  deletes : (fd : ℤ) (r : Reply) → del fd_setsize s fd ≡ ret (r, s') → Step fd_setsize s s'
  waits :
      (timeout : Timeout) (select : FdSet → FdSet → FdSet → Answer) (r : Reply)
      → IsSelect select
      → wait fd_setsize s timeout select ≡ ret (r, s')
      → Step fd_setsize s s'
  wait_raises :
      (timeout : Timeout) (select : FdSet → FdSet → FdSet → Answer)
      → wait fd_setsize s timeout select ≡ raise
      → s' ≡ s
      → Step fd_setsize s s'

-- The states that calls lead to from that of `Lnew`.
pub data IsReachable (fd_setsize : ℕ) : SelectState → Type 0 where
  start : IsReachable fd_setsize (new fd_setsize)
  next :
      {s s' : SelectState}
      → IsReachable fd_setsize s
      → Step fd_setsize s s'
      → IsReachable fd_setsize s'

Step-IsValid : {fd_setsize : ℕ} {s s' : SelectState} → IsValid s → Step fd_setsize s s' → IsValid s'
Step-IsValid {fd_setsize} {s} {s'} v (adds fd r w reply e) =
    add-IsValid fd_setsize s s' fd r w reply v e
Step-IsValid {fd_setsize} {s} {s'} v (sets fd r w reply e) =
    set_events-IsValid fd_setsize s s' fd r w reply v e
Step-IsValid {fd_setsize} {s} {s'} v (deletes fd reply e) = del-IsValid fd_setsize s s' fd reply v e
Step-IsValid {fd_setsize} {s} {s'} v (waits timeout select reply w e) =
    (subst (OnRet (TellsWatched s)) e (wait-TellsWatched fd_setsize s timeout select w v)).0
Step-IsValid v (wait_raises timeout select e same) = subst IsValid (sym same) v

IsReachable-IsValid : {fd_setsize : ℕ} {s : SelectState} → IsReachable fd_setsize s → IsValid s
unfolding new
IsReachable-IsValid start = record {
  reads = λ k h. h;
  writes = λ k h. h;
  readables = λ k h. h;
  writables = λ k h. h;
  errors = λ k h. h;
}
IsReachable-IsValid (next r step) = Step-IsValid (IsReachable-IsValid r) step

-- After any sequence of calls since `Lnew` that each return or raise an error (so none of `Ladd`
-- with FD_SETSIZE, and none of `Lset` or `Ldel` with a descriptor that is negative or not below
-- FD_SETSIZE), an event that `Lwait` tells is one of a descriptor that is watched, where
-- select(2) leaves no descriptor in a set that it was not given in it.
pub wait-IsReachable :
    {fd_setsize : ℕ} {s s' : SelectState} (timeout : Timeout)
    (select : FdSet → FdSet → FdSet → Answer) (fd : ℤ) (a b : Bool)
    → IsReachable fd_setsize s
    → IsSelect select
    → wait fd_setsize s timeout select ≡ ret (event fd a b, s')
    → (n : ℕ) × (fd ≡ pos n) × (s.all n ≡ true)
wait-IsReachable {fd_setsize} {s} timeout select fd a b r w e =
    let t =
      subst (OnRet (TellsWatched s)) e
        (wait-TellsWatched fd_setsize s timeout select w (IsReachable-IsValid r)) in
    t.1 fd a b refl
