-- ===== src/Poll/Array/Set.antt =====
-- `Lset` against the set of watched descriptors.
use prosody.Base.{
  ℕ, ◌<◌, ◌≡◌, ◌≢◌, ◌↔◌, ◌⊎◌, ◌∙◌, inl, inr, refl, sym, ap, subst, Bool, none, some, length-set,
  set, get_or-set_self, get_or-set_ne, arith, ℕ_discrete,
}
use prosody.Base.Int.{ℤ}
use prosody.Poll.{done, failed, enoent, Events, is_set}
use prosody.Poll.Array.{PollState, unused, slot, wanted, find_fd, find_fd_in_use, set_events}
use prosody.Poll.Array.Inv.{
  IsValid, Watches, IsWatched, find_fd-IsWatched, find_fd-not_IsWatched, find_fd_in_use-eq-find_fd,
}

-- The array with the item at `i` watched for other events.
abbrev changed : PollState → ℕ → Events → PollState
changed s i ev = record s { events = set s.events i (record (slot s i) { events = ev }) }

in_use :
    {max_watched : ℕ} {s : PollState} (fd : ℤ)
    → IsValid max_watched s
    → find_fd_in_use s.count 0 s fd ≡ find_fd s.count 0 s fd
in_use {s = s} fd v = find_fd_in_use-eq-find_fd s.count 0 s fd (λ k p q. v.are_fds k (omega arith))

set_result :
    (s : PollState) (fd : ℤ) (wantread wantwrite : Bool) (i : ℕ)
    → find_fd_in_use s.count 0 s fd ≡ some i
    → set_events s fd wantread wantwrite ≡ (done, changed s i (wanted wantread wantwrite))
unfolding set_events
set_result s fd wantread wantwrite i e = ground arith

set_missing :
    (s : PollState) (fd : ℤ) (wantread wantwrite : Bool)
    → find_fd_in_use s.count 0 s fd ≡ none
    → set_events s fd wantread wantwrite ≡ (failed enoent, s)
unfolding set_events
set_missing s fd wantread wantwrite e = ground arith

module _ {max_watched : ℕ} {s : PollState} (v : IsValid max_watched s) (i : ℕ) (ev : Events)
    (below : i < s.count) where
  slot-changed : slot (changed s i ev) i ≡ record (slot s i) { events = ev }
  slot-changed = get_or-set_self s.events i _ unused (omega (arith, v.size, v.count_in))

  other_slot : (k : ℕ) → i ≢ k → slot (changed s i ev) k ≡ slot s k
  other_slot k h = get_or-set_ne s.events i k _ unused h

  same_fd : (k : ℕ) → (slot (changed s i ev) k).fd ≡ (slot s k).fd
  same_fd k = elim (ℕ_discrete i k) [
    | yes e ↦ rw (← e) (ap (λ x. x.fd) slot-changed)
    | no h ↦ ap (λ x. x.fd) (other_slot k h)
  ]

  same_revents : (k : ℕ) → (slot (changed s i ev) k).revents ≡ (slot s k).revents
  same_revents k = elim (ℕ_discrete i k) [
    | yes e ↦ rw (← e) (ap (λ x. x.revents) slot-changed)
    | no h ↦ ap (λ x. x.revents) (other_slot k h)
  ]

  changed-IsValid : IsValid max_watched (changed s i ev)
  changed-IsValid = record {
    size = length-set s.events i _ ∙ v.size;
    count_in = v.count_in;
    are_fds = λ k p e. v.are_fds k p (sym (same_fd k) ∙ e);
    once = λ j k p q e. v.once j k p q (sym (same_fd j) ∙ e ∙ same_fd k);
    vacant = λ k p. same_fd k ∙ v.vacant k p;
    quiet = λ k p q. ap (λ r. is_set r) (same_revents k) ∙ v.quiet k p q;
  }

  Watches-changed :
      (f : ℤ) (e : Events)
      → Watches (changed s i ev) f e
        ↔ (((f ≡ (slot s i).fd) × (e ≡ ev)) ⊎ ((f ≢ (slot s i).fd) × Watches s f e))
  Watches-changed f e = (
    λ w. elim (ℕ_discrete i w.0) [
      | yes h ↦
          let own : slot (changed s i ev) w.0 ≡ record (slot s i) { events = ev } =
            ap (slot (changed s i ev)) (sym h) ∙ slot-changed in
          inl (sym w.2 ∙ ap (λ x. x.fd) own, sym w.3 ∙ ap (λ x. x.events) own)
      | no h ↦ inr (
        λ q. h (v.once i w.0 below w.1 (sym q ∙ sym w.2 ∙ same_fd w.0)),
        (w.0, w.1, sym (same_fd w.0) ∙ w.2, sym (ap (λ x. x.events) (other_slot w.0 h)) ∙ w.3),
      )
    ],
    λ w. elim w [
      | inl (p, q) ↦ (i, below, same_fd i ∙ sym p, ap (λ x. x.events) slot-changed ∙ sym q)
      | inr (ne, (k, p, a, b)) ↦ (
        k,
        p,
        same_fd k ∙ a,
        ap (λ x. x.events) (other_slot k (λ q. ne (sym a ∙ ap (λ n. (slot s n).fd) (sym q)))) ∙ b,
      )
    ],
  )

-- `Lset` of a watched descriptor returns true, keeps the invariant and changes what that descriptor
-- is watched for and nothing else; of any other it returns ENOENT and changes nothing.
pub set_events_lem :
    {max_watched : ℕ} {s : PollState} (fd : ℤ) (wantread wantwrite : Bool)
    → IsValid max_watched s
    → let r = set_events s fd wantread wantwrite in
      (¬ IsWatched s fd → r ≡ (failed enoent, s))
      × (IsWatched s fd
          → (r.0 ≡ done)
            × IsValid max_watched r.1
            × ((f : ℤ) (e : Events)
                → Watches r.1 f e
                  ↔ (((f ≡ fd) × (e ≡ wanted wantread wantwrite)) ⊎ ((f ≢ fd) × Watches s f e))))
set_events_lem {max_watched} {s} fd wantread wantwrite v = (
  λ h. set_missing s fd wantread wantwrite (in_use fd v ∙ find_fd-not_IsWatched s fd h),
  λ w.
      let ev = wanted wantread wantwrite in
      let k = find_fd-IsWatched s fd w in
      let e = set_result s fd wantread wantwrite k.0 (in_use fd v ∙ k.1) in
      rw e (
        refl,
        changed-IsValid v k.0 ev k.2,
        subst
            (λ x.
              (f : ℤ) (e : Events)
              → Watches (changed s k.0 ev) f e ↔ (((f ≡ x) × (e ≡ ev)) ⊎ ((f ≢ x) × Watches s f e)))
            k.3 (Watches-changed v k.0 ev k.2),
      ),
)
