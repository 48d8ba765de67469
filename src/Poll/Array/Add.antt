-- ===== src/Poll/Array/Add.antt =====
-- `Ladd` and `Lset` against the set of watched descriptors.
use prosody.Base.{
  ℕ, ◌+◌, ◌<◌, ◌≡◌, ◌≢◌, ◌↔◌, ◌⊎◌, ◌∙◌, inl, inr, refl, sym, ap, Bool, length-set, set,
  get_or-set_self, get_or-set_ne, arith, dec_lt,
}
use prosody.Base.Int.{ℤ, pos, negsuc, ◌≤ℤ◌, ◌<ℤ◌}
use prosody.Poll.{done, failed, ebadf, eexist, emfile, Events, no_events, is_set}
use prosody.Poll.Array.{Pollfd, PollState, unused, slot, wanted, add}
use prosody.Poll.Array.Inv.{IsValid, Watches, IsWatched, find_fd-IsWatched, find_fd-not_IsWatched}

-- The array after one more item.
abbrev added : PollState → ℤ → Events → PollState
added s fd ev = record s {
  events = set s.events s.count (record { fd = fd; events = ev; revents = no_events });
  count = s.count + 1;
}

add_result :
    (max_watched : ℕ) (s : PollState) (fd : ℤ) (wantread wantwrite : Bool)
    → pos 0 ≤ℤ fd
    → ¬ IsWatched s fd
    → s.count < max_watched
    → add max_watched s fd wantread wantwrite ≡ (done, added s fd (wanted wantread wantwrite))
unfolding add
add_result max_watched s fd wantread wantwrite is_fd fresh room =
    ground (arith, find_fd-not_IsWatched s fd fresh)

module _ {max_watched : ℕ} {s : PollState} (v : IsValid max_watched s) (fd : ℤ) (ev : Events)
    (room : s.count < max_watched) where
  abbrev item : Pollfd
  item = record { fd = fd; events = ev; revents = no_events }

  new_slot : slot (added s fd ev) s.count ≡ item
  new_slot = get_or-set_self s.events s.count item unused (omega (arith, v.size))

  old_slot : (i : ℕ) → i < s.count → slot (added s fd ev) i ≡ slot s i
  old_slot i h = get_or-set_ne s.events s.count i item unused (omega arith)

  slot_cases :
      (i : ℕ)
      → i < s.count + 1
      → ((i < s.count) × (slot (added s fd ev) i ≡ slot s i))
        ⊎ ((i ≡ s.count) × (slot (added s fd ev) i ≡ item))
  slot_cases i h = elim (dec_lt i s.count) [
    | yes p ↦ inl (p, old_slot i p)
    | no p ↦ let e : i ≡ s.count = omega arith in inr (e, ap (slot (added s fd ev)) e ∙ new_slot)
  ]

  added-once :
      ¬ IsWatched s fd
      → (i j : ℕ) → i < s.count + 1
      → j < s.count + 1
      → (slot (added s fd ev) i).fd ≡ (slot (added s fd ev) j).fd
      → i ≡ j
  added-once fresh i j hi hj e = elim (slot_cases i hi) [
    | inl (p, old) ↦ elim (slot_cases j hj) [
      | inl (q, old') ↦ v.once i j p q (sym (ap (λ x. x.fd) old) ∙ e ∙ ap (λ x. x.fd) old')
      | inr (q, new') ↦ absurd (fresh (i, p, sym (ap (λ x. x.fd) old) ∙ e ∙ ap (λ x. x.fd) new'))
    ]
    | inr (p, new') ↦ elim (slot_cases j hj) [
      | inl (q, old) ↦ absurd (fresh (j, q, sym (ap (λ x. x.fd) old) ∙ sym e ∙ ap (λ x. x.fd) new'))
      | inr (q, _) ↦ omega arith
    ]
  ]

  -- Adding keeps the invariant, where the descriptor is one and is not watched.
  added-IsValid : fd ≢ negsuc 0 → ¬ IsWatched s fd → IsValid max_watched (added s fd ev)
  added-IsValid is_fd fresh = record {
    size = length-set s.events s.count item ∙ v.size;
    count_in = omega arith;
    are_fds = λ i h e. elim (slot_cases i h) [
      | inl (p, old) ↦ v.are_fds i p (sym (ap (λ x. x.fd) old) ∙ e)
      | inr (p, new') ↦ is_fd (sym (ap (λ x. x.fd) new') ∙ e)
    ];
    once = added-once fresh;
    vacant = λ i h.
        ap (λ x. x.fd) (get_or-set_ne s.events s.count i item unused (omega arith))
        ∙ v.vacant i (omega arith);
    quiet = λ i q h. elim (slot_cases i h) [
      | inl (p, old) ↦ ap (λ x. is_set x.revents) old ∙ v.quiet i q p
      | inr (p, new') ↦ ap (λ x. is_set x.revents) new'
    ];
  }

  -- What is watched afterwards.
  Watches-added :
      (f : ℤ) (e : Events) → Watches (added s fd ev) f e ↔ (((f ≡ fd) × (e ≡ ev)) ⊎ Watches s f e)
  Watches-added f e = (
    λ w. elim (slot_cases w.0 w.1) [
      | inl (p, old) ↦
          inr (w.0, p, sym (ap (λ x. x.fd) old) ∙ w.2, sym (ap (λ x. x.events) old) ∙ w.3)
      | inr (p, new') ↦ inl (sym w.2 ∙ ap (λ x. x.fd) new', sym w.3 ∙ ap (λ x. x.events) new')
    ],
    λ w. elim w [
      | inl (p, q) ↦ (
        s.count,
        omega arith,
        ap (λ x. x.fd) new_slot ∙ sym p,
        ap (λ x. x.events) new_slot ∙ sym q,
      )
      | inr (i, p, a, b) ↦
          (i, omega arith, ap (λ x. x.fd) (old_slot i p) ∙ a, ap (λ x. x.events) (old_slot i p) ∙ b)
    ],
  )

-- `Ladd` of a descriptor that is not watched, where there is room, returns true, keeps the invariant
-- and watches that descriptor for the events wanted beside what was watched before.
pub add-added :
    {max_watched : ℕ} {s : PollState} (fd : ℤ) (wantread wantwrite : Bool)
    → IsValid max_watched s
    → pos 0 ≤ℤ fd
    → ¬ IsWatched s fd
    → s.count < max_watched
    → let r = add max_watched s fd wantread wantwrite in
      (r.0 ≡ done)
      × IsValid max_watched r.1
      × ((f : ℤ) (e : Events)
          → Watches r.1 f e ↔ (((f ≡ fd) × (e ≡ wanted wantread wantwrite)) ⊎ Watches s f e))
add-added {max_watched} {s} fd wantread wantwrite v is_fd fresh room =
    let ev = wanted wantread wantwrite in
    let e : add max_watched s fd wantread wantwrite ≡ (done, added s fd ev) =
      add_result max_watched s fd wantread wantwrite is_fd fresh room in
    rw e (refl, added-IsValid v fd ev room (ground arith) fresh, Watches-added v fd ev room)

-- `Ladd` changes nothing where it returns an error: EBADF for a negative descriptor, EEXIST for one
-- that is watched, and EMFILE for another one where the array is full.
pub add_refused :
    {max_watched : ℕ} {s : PollState} (fd : ℤ) (wantread wantwrite : Bool)
    → IsValid max_watched s
    → let r = add max_watched s fd wantread wantwrite in
      (fd <ℤ pos 0 → r ≡ (failed ebadf, s))
      × (IsWatched s fd → pos 0 ≤ℤ fd → r ≡ (failed eexist, s))
      × (¬ IsWatched s fd → pos 0 ≤ℤ fd → s.count ≡ max_watched → r ≡ (failed emfile, s))
unfolding add
add_refused {max_watched} {s} fd wantread wantwrite v = (
  λ h. ground arith,
  λ w h. let r = find_fd-IsWatched s fd w in ground (arith, r.1),
  λ w h full. ground (arith, find_fd-not_IsWatched s fd w),
)
