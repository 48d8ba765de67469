-- ===== src/Poll/Array/Wait.antt =====
-- `Lpushevent` and `Lwait`: each event that poll(2) reports is told once.
use prosody.Base.{
  ℕ, zero, suc, ◌≤◌, ◌<◌, ◌≡◌, ◌∙◌, refl, ap, Bool, true, false, ◌||◌, ◌&&◌, not, List, [], ◌∷◌,
  ◌++◌, length, set, get_or-set_ne, arith, ℕ_discrete, Bool-cases, inl, inr, if◌then◌else◌,
}
use prosody.Base.Int.{pos, negsuc, pos_part, eq_ℤ}
use prosody.Poll.{Reply, event, nothing, no_events, is_set}
use prosody.Poll.Array.{Pollfd, PollState, unused, slot, push_loop, push_event}

-- The event of an item.
abbrev pub report : Pollfd → Reply
report e = event e.fd (e.revents.pollin || e.revents.pollhup || e.revents.pollerr) e.revents.pollout

-- An item in use with an event that is still to be told.
abbrev pub is_pending : Pollfd → Bool
is_pending e = not (eq_ℤ e.fd (negsuc 0)) && is_set e.revents

-- The events still to be told of the items below an index, from the top down.
unfoldable pub pending : ℕ → PollState → List Reply
pending zero s = []
pending (suc i) s = if is_pending (slot s i) then report (slot s i) ∷ pending i s else pending i s

-- The replies to a number of calls of `Lpushevent`, one after the other.
unfoldable pub tell : ℕ → PollState → List Reply
tell zero s = []
tell (suc n) s = let r = push_event s in let rest = tell n r.1 in r.0 ∷ rest

-- The array once the event at `i` is told.
abbrev pub told : PollState → ℕ → PollState
told s i = record s {
  events = set s.events i (record (slot s i) { revents = no_events });
  processed = pos i;
}

pub pending-told : (n i : ℕ) (s : PollState) → n ≤ i → pending n (told s i) ≡ pending n s
unfolding pending
pending-told zero i s h = refl
pending-told (suc n) i s h = ground (
  arith,
  get_or-set_ne s.events i n (record (slot s i) { revents = no_events }) unused,
  pending-told n i s (omega arith),
)

-- The loop of `Lpushevent` by what is pending below its start.
pub push_loop_lem :
    (n : ℕ) (s : PollState)
    → (pending n s ≡ [] → push_loop n s ≡ (nothing, s))
      × ((r : Reply) (rest : List Reply)
          → pending n s ≡ r ∷ rest
          → (i : ℕ) × (i < n)
            × (push_loop n s ≡ (r, told s i))
            × (pending i s ≡ rest)
            × ((k : ℕ) → i < k → k < n → is_pending (slot s k) ≡ false)
            × (is_pending (slot s i) ≡ true)
            × (r ≡ report (slot s i)))
unfolding pending push_loop
push_loop_lem zero s = (λ e. refl, λ r rest e. absurd (ground arith))
push_loop_lem (suc n) s = elim (Bool-cases (is_pending (slot s n))) [
  | inl h ↦ (
    λ e. absurd (ground arith),
    λ r rest e. (
      n,
      omega arith,
      ground arith,
      ground arith,
      λ k p q. absurd (omega arith),
      h,
      ground arith,
    ),
  )
  | inr h ↦ (
    λ e. ground (arith, (push_loop_lem n s).0),
    λ r rest e.
        let t = (push_loop_lem n s).1 r rest (ground arith) in
        (
          t.0,
          omega (arith, t.1),
          ground (arith, t.2),
          t.3,
          λ k p q. elim (ℕ_discrete n k) [
            | yes same ↦ rw (← same) h
            | no other ↦ t.4 k p (omega arith)
          ],
          t.5,
          t.6,
        ),
  )
]

tell_from :
    (events : List Reply) (s : PollState)
    → pending (pos_part s.processed) s ≡ events
    → tell (suc (length events)) s ≡ events ++ (nothing ∷ [])
unfolding tell push_event
tell_from [] s e = ap (λ r. r.0 ∷ []) ((push_loop_lem (pos_part s.processed) s).0 e)
tell_from (r ∷ events) s e =
    let t = (push_loop_lem (pos_part s.processed) s).1 r events e in
    let rest = tell_from events (told s t.0) (pending-told t.0 t.0 s (omega arith) ∙ t.3) in
    ap (λ x. x.0 ∷ tell (suc (length events)) x.1) t.2 ∙ ap (λ xs. r ∷ xs) rest

-- Calls of `Lpushevent` in a row tell the events of the items below `processed`, each once and from
-- the top down, with what can be read and written, and then that there is nothing more.
pub tell-pending :
    (s : PollState)
    → let events = pending (pos_part s.processed) s in
      tell (suc (length events)) s ≡ events ++ (nothing ∷ [])
tell-pending s = tell_from (pending (pos_part s.processed) s) s refl
