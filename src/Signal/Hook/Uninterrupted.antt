-- ===== src/Signal/Hook/Uninterrupted.antt =====
-- A call of `handle` that no other signal interrupts does what `handle` of the model does.
use prosody.Base.{
  ◌+◌, ◌≡◌, ◌∙◌, refl, sym, ap, subst, true, Bool-cases, inl, inr, List, ◌∷◌, length, ltb, ◌==◌,
  arith,
}
use prosody.Base.Int.{ℤ}
use prosody.Signal.Hook.{
  max_pending_signals, Frame, tests, saves_hook, saves_mask, saves_count, sets, checks, loads, adds,
  puts, SignalState, run_frame, take_hook, enqueue, handle, interrupt, Steps, next, arrives,
  advances,
}

-- The state of a run at which the calls of `handle` are these.
abbrev at : SignalState → List Frame → SignalState
at s frames = record s { running = frames }

take_hook-Steps :
    {r : SignalState} (s : SignalState) (sig : ℤ) (rest : List Frame)
    → Steps r (at s (tests sig ∷ rest))
    → Steps r (at (take_hook s) (checks sig ∷ rest))
unfolding run_frame take_hook
take_hook-Steps {r} s sig rest run = elim (Bool-cases (s.nsig == 0)) [
  | inr more ↦ rw (more, take_hook) (next run (advances (tests sig) rest refl (rw more refl)))
  | inl first ↦
      let s1 = record s.saved { hook = s.current.hook } in
      let s2 = record s1 { mask = s.current.mask } in
      let r1 : Steps r (at s (saves_hook sig ∷ rest)) =
        next run (advances (tests sig) rest refl (rw first refl)) in
      let r2 : Steps r (record s { saved = s1; running = saves_mask sig ∷ rest }) =
        next r1 (advances (saves_hook sig) rest refl refl) in
      let r3 : Steps r (record s { saved = s2; running = saves_count sig ∷ rest }) =
        next r2 (advances (saves_mask sig) rest refl refl) in
      let r4 : Steps r (record s { saved = s.current; running = sets sig ∷ rest }) =
        next r3 (advances (saves_count sig) rest refl refl) in
      rw (first, take_hook) (next r4 (advances (sets sig) rest refl refl))
]

enqueue-Steps :
    {r : SignalState} (s : SignalState) (sig : ℤ) (rest : List Frame)
    → length s.signals ≡ max_pending_signals
    → Steps r (at s (checks sig ∷ rest))
    → Steps r (at (enqueue s sig) rest)
unfolding run_frame enqueue
enqueue-Steps {r} s sig rest size run = elim (Bool-cases (ltb s.nsig max_pending_signals)) [
  | inr full ↦ rw (full, enqueue) (next run (advances (checks sig) rest refl (rw full refl)))
  | inl room ↦
      let fits : ltb s.nsig (length s.signals) ≡ true = ground (arith, room, size) in
      let r1 : Steps r (at s (loads sig ∷ rest)) =
        next run (advances (checks sig) rest refl (rw room refl)) in
      let r2 : Steps r (at s (adds sig s.nsig ∷ rest)) =
        next r1 (advances (loads sig) rest refl refl) in
      let r3 : Steps r (record s { nsig = s.nsig + 1; running = puts sig s.nsig ∷ rest }) =
        next r2 (advances (adds sig s.nsig) rest refl refl) in
      rw (room, enqueue) (next r3 (advances (puts sig s.nsig) rest refl (rw fits refl)))
]

handle-running : (s : SignalState) (sig : ℤ) → (handle s sig).running ≡ s.running
unfolding handle take_hook enqueue
handle-running s sig = ground arith

take_hook-signals : (s : SignalState) → (take_hook s).signals ≡ s.signals
unfolding take_hook
take_hook-signals s = ground arith

pub handle-Steps :
    {r s : SignalState} (sig : ℤ)
    → length s.signals ≡ max_pending_signals
    → Steps r s
    → Steps r (handle s sig)
unfolding handle interrupt
handle-Steps {r} {s} sig size run =
    let begun = take_hook-Steps s sig s.running (next run (arrives sig)) in
    let whole =
      enqueue-Steps (take_hook s) sig s.running (ap length (take_hook-signals s) ∙ size) begun in
    subst (λ frames. Steps r (at (handle s sig) frames)) (sym (handle-running s sig)) whole
