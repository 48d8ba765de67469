-- ===== src/Poll/Array/WaitInv.antt =====
-- `Lwait` keeps the invariant, and asks poll(2) only when nothing is left to tell.
use prosody.Base.{
  ℕ, zero, suc, ◌<◌, ◌≡◌, ◌≢◌, ◌⊎◌, ◌∙◌, refl, sym, ap, subst, true, false, List, [], ◌∷◌, length,
  length-set, get_or, take, get_or-set_self, get_or-set_ne, arith, dec_lt, ℕ_discrete, inl, inr,
}
use prosody.Base.Int.{pos, negsuc, pos_part, eq_ℤ_iff}
use prosody.Base.Lua.{Outcome, ret}
use prosody.Poll.{
  Reply, nothing, Events, no_events, is_set, Timeout, negative, zero_time, positive, eintr,
  timed_out,
}
use prosody.Poll.Array.{
  Pollfd, PollState, unused, slot, push_loop, push_event, Answer, ready, no_event, error,
  write_revents, after_poll, poll_for, wait,
}
use prosody.Poll.Array.Inv.{IsValid}
use prosody.Poll.Array.Wait.{is_pending, pending, report, told, pending-told, push_loop_lem}

module _ {max_watched : ℕ} {s : PollState} (v : IsValid max_watched s) (i : ℕ) where
  told-same : (k : ℕ) → i ≢ k → slot (told s i) k ≡ slot s k
  told-same k h = get_or-set_ne s.events i k _ unused h

  told-own : i < s.count → slot (told s i) i ≡ record (slot s i) { revents = no_events }
  told-own h = get_or-set_self s.events i _ unused (omega (arith, v.size, v.count_in))

  told-fd : i < s.count → (k : ℕ) → (slot (told s i) k).fd ≡ (slot s k).fd
  told-fd h k = elim (ℕ_discrete i k) [
    | yes e ↦ rw (← e) (ap (λ x. x.fd) (told-own h))
    | no ne ↦ ap (λ x. x.fd) (told-same k ne)
  ]

  -- An item in use that is not pending has no event.
  quiet_of_not_pending :
      (k : ℕ) → k < s.count → is_pending (slot s k) ≡ false → is_set (slot s k).revents ≡ false
  quiet_of_not_pending k h e = ground (arith, v.are_fds k h, eq_ℤ_iff (slot s k).fd (negsuc 0))

  told-IsValid :
      i < s.count
      → ((k : ℕ) → i < k → k < s.count → is_set (slot s k).revents ≡ false)
      → IsValid max_watched (told s i)
  told-IsValid h above = record {
    size = length-set s.events i _ ∙ v.size;
    count_in = v.count_in;
    are_fds = λ k p e. v.are_fds k p (sym (told-fd h k) ∙ e);
    once = λ j k p q e. v.once j k p q (sym (told-fd h j) ∙ e ∙ told-fd h k);
    vacant = λ k p. told-fd h k ∙ v.vacant k p;
    quiet = λ k p q. elim (ℕ_discrete i k) [
      | yes e ↦ rw (← e) (ap (λ x. is_set x.revents) (told-own h))
      | no ne ↦ ap (λ x. is_set x.revents) (told-same k ne) ∙ above k (omega arith) q
    ];
  }

  -- What is pending is in use.
  pending-lt-count : is_pending (slot s i) ≡ true → i < s.count
  pending-lt-count h = elim (dec_lt i s.count) [
    | yes p ↦ p
    | no p ↦ absurd (ground (arith, v.vacant i (omega arith), eq_ℤ_iff (slot s i).fd (negsuc 0)))
  ]

-- What `push_loop_lem` states of the loop of `Lpushevent`.
abbrev Told : PollState → Type 0
Told s =
    let n = pos_part s.processed in
    (pending n s ≡ [] → push_loop n s ≡ (nothing, s))
    × ((r : Reply) (rest : List Reply)
        → pending n s ≡ r ∷ rest
        → (i : ℕ) × (i < n)
          × (push_loop n s ≡ (r, told s i))
          × (pending i s ≡ rest)
          × ((k : ℕ) → i < k → k < n → is_pending (slot s k) ≡ false)
          × (is_pending (slot s i) ≡ true)
          × (r ≡ report (slot s i)))

push_event-IsValid :
    {max_watched : ℕ} {s : PollState} → IsValid max_watched s → IsValid max_watched (push_event s).1
unfolding push_event
push_event-IsValid {max_watched} {s} v =
    go (pending (pos_part s.processed) s) (push_loop_lem (pos_part s.processed) s) refl
  where
    go :
        (events : List Reply)
        → Told s
        → pending (pos_part s.processed) s ≡ events
        → IsValid max_watched (push_loop (pos_part s.processed) s).1
    go [] t e = rw (t.0 e) v
    go (r ∷ events) t e =
        let found = t.1 r events e in
        let below = pending-lt-count v found.0 found.5 in
        rw found.2 (
          told-IsValid v found.0 below (λ k p q. elim (dec_lt k (pos_part s.processed)) [
            | yes h ↦ quiet_of_not_pending v found.0 k q (found.4 k p h)
            | no h ↦ v.quiet k (omega arith) q
          ]))

-- What poll(2) writes changes no descriptor.
fd-write_revents :
    (es : List Pollfd) (rs : List Events) (k : ℕ)
    → (get_or (write_revents es rs) k unused).fd ≡ (get_or es k unused).fd
unfolding write_revents
fd-write_revents [] rs k = refl
fd-write_revents (e ∷ es) [] k = refl
fd-write_revents (e ∷ es) (r ∷ rs) zero = refl
fd-write_revents (e ∷ es) (r ∷ rs) (suc k) = fd-write_revents es rs k

length-write_revents :
    (es : List Pollfd) (rs : List Events) → length (write_revents es rs) ≡ length es
unfolding write_revents
length-write_revents [] rs = refl
length-write_revents (e ∷ es) [] = refl
length-write_revents (e ∷ es) (r ∷ rs) = ap suc (length-write_revents es rs)

abbrev answered : PollState → List Events → PollState
answered s rs = record s { events = write_revents s.events rs; processed = pos s.count }

answered-IsValid :
    {max_watched : ℕ} {s : PollState} (rs : List Events)
    → IsValid max_watched s
    → IsValid max_watched (answered s rs)
answered-IsValid {s = s} rs v = record {
  size = length-write_revents s.events rs ∙ v.size;
  count_in = v.count_in;
  are_fds = λ k p e. v.are_fds k p (sym (fd-write_revents s.events rs k) ∙ e);
  once = λ j k p q e.
      v.once j k p q (sym (fd-write_revents s.events rs j) ∙ e ∙ fd-write_revents s.events rs k);
  vacant = λ k p. fd-write_revents s.events rs k ∙ v.vacant k p;
  quiet = λ k p q. absurd (omega arith);
}

-- The array that a return leaves is valid.
abbrev LeavesValid : ℕ → Outcome (Reply × PollState) → Type 0
LeavesValid max_watched result =
    (r : Reply) (s' : PollState) → result ≡ ret (r, s') → IsValid max_watched s'

ret-LeavesValid :
    {max_watched : ℕ} (r : Reply) (s : PollState)
    → IsValid max_watched s
    → LeavesValid max_watched (ret (r, s))
ret-LeavesValid r s v r' s' e = let q : s ≡ s' = cc in subst (IsValid _) q v

after_poll-LeavesValid :
    {max_watched : ℕ} {s : PollState} (a : Answer)
    → IsValid max_watched s
    → LeavesValid max_watched (after_poll s a)
unfolding after_poll
after_poll-LeavesValid (ready rs) v =
    ret-LeavesValid _ _ (push_event-IsValid (answered-IsValid rs v))
after_poll-LeavesValid {s = s} no_event v = ret-LeavesValid timed_out s v
after_poll-LeavesValid {s = s} (error eintr) v = ret-LeavesValid _ s v
after_poll-LeavesValid {s = s} (error x) v = ret-LeavesValid _ s v

poll_for-LeavesValid :
    {max_watched : ℕ} {s : PollState} (timeout : Timeout) (poll : List Pollfd → Answer)
    → IsValid max_watched s
    → LeavesValid max_watched (poll_for s timeout poll)
unfolding poll_for
poll_for-LeavesValid negative poll v = λ r s' e. absurd (cc)
poll_for-LeavesValid {s = s} zero_time poll v = ret-LeavesValid timed_out s v
poll_for-LeavesValid {s = s} positive poll v =
    after_poll-LeavesValid (poll (take s.count s.events)) v

wait_cases :
    (s : PollState) (timeout : Timeout) (poll : List Pollfd → Answer)
    → (wait s timeout poll ≡ ret (push_event s))
      ⊎ (wait s timeout poll ≡ poll_for (push_event s).1 timeout poll)
unfolding wait
wait_cases s timeout poll = ground arith

-- `Lwait` keeps the invariant, whatever poll(2) answers.
pub wait-IsValid :
    {max_watched : ℕ} {s : PollState} (timeout : Timeout) (poll : List Pollfd → Answer) (r : Reply)
    (s' : PollState)
    → IsValid max_watched s
    → wait s timeout poll ≡ ret (r, s')
    → IsValid max_watched s'
wait-IsValid {max_watched} {s} timeout poll r s' v e = elim (wait_cases s timeout poll) [
  | inl h ↦
      ret-LeavesValid (push_event s).0 (push_event s).1 (push_event-IsValid v) r s' (sym h ∙ e)
  | inr h ↦ poll_for-LeavesValid timeout poll (push_event-IsValid v) r s' (sym h ∙ e)
]

-- While an event is still to be told `Lwait` tells the next one and does not ask poll(2), whatever
-- the timeout; the others stay to be told.
pub wait-pending :
    (s : PollState) (r : Reply) (rest : List Reply)
    → pending (pos_part s.processed) s ≡ r ∷ rest
    → (s' : PollState) × ((timeout : Timeout) (poll : List Pollfd → Answer)
        → wait s timeout poll ≡ ret (r, s'))
      × (pending (pos_part s'.processed) s' ≡ rest)
unfolding wait push_event
wait-pending s r rest e =
    let t = (push_loop_lem (pos_part s.processed) s).1 r rest e in
    (
      told s t.0,
      λ timeout poll. ground (arith, t.2, t.6),
      pending-told t.0 t.0 s (omega arith) ∙ t.3,
    )
