-- ===== src/Poll/Array/Del.antt =====
-- `Ldel` against the set of watched descriptors.
use prosody.Base.{
  ℕ, ◌-◌, ◌≤◌, ◌<◌, ◌≡◌, ◌≢◌, ◌↔◌, ◌⊎◌, ◌∙◌, inl, inr, refl, sym, ap, subst, none, some, length,
  length-set, set, get_or-set_self, get_or-set_ne, arith, ℕ_discrete, dec_lt,
}
use prosody.Base.Int.{ℤ, negsuc, pos_part}
use prosody.Poll.{done, failed, enoent, Events, is_set}
use prosody.Poll.Array.{PollState, unused, slot, find_fd, remove, del}
use prosody.Poll.Array.Inv.{IsValid, Watches, IsWatched, find_fd-IsWatched, find_fd-not_IsWatched}

module _ {max_watched : ℕ} {s : PollState} (v : IsValid max_watched s) (i : ℕ)
    (below : i < s.count) where
  -- The items that stay: the last one at `i`, each other at its place.
  filled_slot : i < s.count - 1 → slot (remove s i) i ≡ slot s (s.count - 1)
  unfolding remove
  filled_slot h =
      get_or-set_ne (set s.events i (slot s (s.count - 1))) (s.count - 1) i _ unused (omega arith)
      ∙ get_or-set_self s.events i _ unused (omega (arith, v.size, v.count_in))

  kept_slot : (k : ℕ) → i ≢ k → k < s.count - 1 → slot (remove s i) k ≡ slot s k
  unfolding remove
  kept_slot k ne h =
      get_or-set_ne (set s.events i (slot s (s.count - 1))) (s.count - 1) k _ unused (omega arith)
      ∙ get_or-set_ne s.events i k _ unused ne

  -- Where the item at `k` comes from.
  origin :
      (k : ℕ)
      → k < s.count - 1
      → (m : ℕ) × (slot (remove s i) k ≡ slot s m)
        × (m < s.count)
        × (k ≤ m)
        × (m ≢ i)
        × (((k ≡ i) × (m ≡ s.count - 1)) ⊎ ((k ≢ i) × (m ≡ k)))
  origin k h = elim (ℕ_discrete i k) [
    | yes e ↦ (
      s.count - 1,
      ap (slot (remove s i)) (sym e) ∙ filled_slot (omega arith),
      omega arith,
      omega arith,
      omega arith,
      inl (sym e, refl),
    )
    | no ne ↦ (k, kept_slot k ne h, omega arith, omega arith, omega arith, inr (omega arith, refl))
  ]

  -- Where an item that stays goes.
  target :
      (k : ℕ) → k < s.count → k ≢ i → (m : ℕ) × (slot (remove s i) m ≡ slot s k) × (m < s.count - 1)
  target k h ne = elim (dec_lt k (s.count - 1)) [
    | yes p ↦ (k, kept_slot k (λ e. ne (sym e)) p, p)
    | no p ↦
        let e : s.count - 1 ≡ k = omega arith in
        (i, filled_slot (omega arith) ∙ ap (slot s) e, omega arith)
  ]

  count-remove : (remove s i).count ≡ s.count - 1
  unfolding remove
  count-remove = refl

  processed-remove : (remove s i).processed ≡ s.processed
  unfolding remove
  processed-remove = refl

  size-remove : length (remove s i).events ≡ max_watched
  unfolding remove
  size-remove =
      length-set (set s.events i (slot s (s.count - 1))) (s.count - 1) _
      ∙ length-set s.events i _
      ∙ v.size

  vacant-remove : (k : ℕ) → s.count - 1 ≤ k → (slot (remove s i) k).fd ≡ negsuc 0
  unfolding remove
  vacant-remove k h = elim (ℕ_discrete (s.count - 1) k) [
    | yes e ↦ rw (← e) (
        ap (λ x. x.fd)
          (get_or-set_self (set s.events i (slot s (s.count - 1))) (s.count - 1) _ unused
            (omega (arith, v.size, v.count_in, length-set s.events i (slot s (s.count - 1))))))
    | no ne ↦
        ap (λ x. x.fd)
          (get_or-set_ne (set s.events i (slot s (s.count - 1))) (s.count - 1) k _ unused ne
            ∙ get_or-set_ne s.events i k _ unused (omega arith))
        ∙ v.vacant k (omega arith)
  ]

  remove-IsValid : IsValid max_watched (remove s i)
  remove-IsValid = record {
    size = size-remove;
    count_in = omega (arith, count-remove, v.count_in);
    are_fds = λ k h e.
        let o = origin k (omega (arith, count-remove)) in
        v.are_fds o.0 o.2 (sym (ap (λ x. x.fd) o.1) ∙ e);
    once = λ j k p q e.
        let oj = origin j (omega (arith, count-remove)) in
        let ok = origin k (omega (arith, count-remove)) in
        let same : oj.0 ≡ ok.0 =
          v.once oj.0 ok.0 oj.2 ok.2 (sym (ap (λ x. x.fd) oj.1) ∙ e ∙ ap (λ x. x.fd) ok.1) in
        omega (arith, same, oj.5, ok.5, count-remove);
    vacant = λ k h. vacant-remove k (omega (arith, count-remove));
    quiet = λ k p q.
        let o = origin k (omega (arith, count-remove)) in
        ap (λ x. is_set x.revents) o.1
        ∙ v.quiet o.0 (omega (arith, o.3, ap pos_part processed-remove)) o.2;
  }

  Watches-remove :
      (f : ℤ) (e : Events) → Watches (remove s i) f e ↔ ((f ≢ (slot s i).fd) × Watches s f e)
  Watches-remove f e = (
    λ w.
        let o = origin w.0 (omega (arith, w.1, count-remove)) in
        let own : (slot s o.0).fd ≡ f = sym (ap (λ x. x.fd) o.1) ∙ w.2 in
        (
          λ q. o.4 (v.once o.0 i o.2 below (own ∙ q)),
          (o.0, o.2, own, sym (ap (λ x. x.events) o.1) ∙ w.3),
        ),
    λ w.
        let (ne, (k, p, a, b)) = w in
        let t = target k p (λ q. ne (sym a ∙ ap (λ n. (slot s n).fd) q)) in
        (t.0, omega (arith, t.2, count-remove), ap (λ x. x.fd) t.1 ∙ a, ap (λ x. x.events) t.1 ∙ b),
  )

del_missing :
    (s : PollState) (fd : ℤ) → find_fd s.count 0 s fd ≡ none → del s fd ≡ (failed enoent, s)
unfolding del
del_missing s fd e = ground arith

del_result :
    (s : PollState) (fd : ℤ) (i : ℕ)
    → 0 < s.count
    → find_fd s.count 0 s fd ≡ some i
    → del s fd ≡ (done, remove s i)
unfolding del
del_result s fd i h e = ground arith

-- `Ldel` of a watched descriptor returns true, keeps the invariant, and ends the watch of that
-- descriptor and of no other, though it moves the last item over the removed one; of any other it
-- returns ENOENT and changes nothing.
pub del_lem :
    {max_watched : ℕ} {s : PollState} (fd : ℤ)
    → IsValid max_watched s
    → let r = del s fd in
      (¬ IsWatched s fd → r ≡ (failed enoent, s))
      × (IsWatched s fd
          → (r.0 ≡ done)
            × IsValid max_watched r.1
            × ((f : ℤ) (e : Events) → Watches r.1 f e ↔ ((f ≢ fd) × Watches s f e)))
del_lem {max_watched} {s} fd v = (
  λ h. del_missing s fd (find_fd-not_IsWatched s fd h),
  λ w.
      let k = find_fd-IsWatched s fd w in
      let e = del_result s fd k.0 (omega (arith, w.1)) k.1 in
      rw e (
        refl,
        remove-IsValid v k.0 k.2,
        subst (λ x. (f : ℤ) (e : Events) → Watches (remove s k.0) f e ↔ ((f ≢ x) × Watches s f e))
            k.3 (Watches-remove v k.0 k.2),
      ),
)
