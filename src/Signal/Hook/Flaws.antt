-- ===== src/Signal/Hook/Flaws.antt =====
-- An error in a Lua function ends the delivery of signals for good.
use prosody.Base.{
  ◌+◌, ◌<◌, ◌≡◌, ◌≢◌, ◌∙◌, refl, sym, subst, false, Bool-cases, inl, inr, List, [], ◌∷◌, length,
  set, ltb, ◌==◌, arith, ℕ,
}
use prosody.Base.Int.{ℤ}
use prosody.Base.Lua.{Outcome, ret, raise, fault}
use prosody.Signal.Hook.{
  sighook, max_pending_signals, outside, looping, leaving, Frame, tests, saves_hook, saves_mask,
  saves_count, sets, checks, loads, adds, puts, SignalState, run_frame, interrupt, call_fails, Step,
  arrives, advances, changes, enters, calls, fails, ends, leaves, Steps, here, next,
}

-- A call of `handle` that does not touch the hook any more, or not where signals wait.
abbrev IsQuiet : Frame → Type 0
IsQuiet (tests sig) = Unit
IsQuiet (saves_hook sig) = ⊥
IsQuiet (saves_mask sig) = ⊥
IsQuiet (saves_count sig) = ⊥
IsQuiet (sets sig) = ⊥
IsQuiet (checks sig) = Unit
IsQuiet (loads sig) = Unit
IsQuiet (adds sig i) = Unit
IsQuiet (puts sig i) = Unit

abbrev AllQuiet : List Frame → Type 0
AllQuiet [] = Unit
AllQuiet (frame ∷ rest) = IsQuiet frame × AllQuiet rest

-- Signals are counted as waiting, but our hook is not set.
record IsDeaf (s : SignalState) : Type 0 where
  place : s.place ≡ outside
  some_wait : 0 < s.nsig
  other_hook : s.current.hook ≢ sighook
  quiet : AllQuiet s.running

-- What a step keeps.
abbrev Keeps : SignalState → SignalState → Type 0
Keeps s t = IsDeaf t × (t.called ≡ s.called)

still_deaf :
    (s : SignalState) (signals : List ℤ) (nsig : ℕ) (running : List Frame)
    → IsDeaf s
    → 0 < nsig
    → AllQuiet running
    → Keeps s (record s { signals = signals; nsig = nsig; running = running })
still_deaf s signals nsig running d h q =
    (record { place = d.place; some_wait = h; other_hook = d.other_hook; quiet = q }, refl)

abbrev Returned : (SignalState → Type 0) → Outcome SignalState → Type 0
Returned Q (ret t) = Q t
Returned Q raise = Unit
Returned Q fault = Unit

run_frame-IsDeaf :
    (s : SignalState) (frame : Frame) (rest : List Frame)
    → IsDeaf s
    → IsQuiet frame
    → AllQuiet rest
    → Returned (Keeps s) (run_frame s frame rest)
unfolding run_frame
run_frame-IsDeaf s (tests sig) rest d q qs =
    let more : (s.nsig == 0) ≡ false = ground (arith, d.some_wait) in
    rw more (still_deaf s s.signals s.nsig (checks sig ∷ rest) d d.some_wait (tt, qs))
run_frame-IsDeaf s (saves_hook sig) rest d q qs = absurd q
run_frame-IsDeaf s (saves_mask sig) rest d q qs = absurd q
run_frame-IsDeaf s (saves_count sig) rest d q qs = absurd q
run_frame-IsDeaf s (sets sig) rest d q qs = absurd q
run_frame-IsDeaf s (checks sig) rest d q qs = elim (Bool-cases (ltb s.nsig max_pending_signals)) [
  | inl room ↦ rw room (still_deaf s s.signals s.nsig (loads sig ∷ rest) d d.some_wait (tt, qs))
  | inr full ↦ rw full (still_deaf s s.signals s.nsig rest d d.some_wait qs)
]
run_frame-IsDeaf s (loads sig) rest d q qs =
    still_deaf s s.signals s.nsig (adds sig s.nsig ∷ rest) d d.some_wait (tt, qs)
run_frame-IsDeaf s (adds sig i) rest d q qs =
    still_deaf s s.signals (i + 1) (puts sig i ∷ rest) d (omega arith) (tt, qs)
run_frame-IsDeaf s (puts sig i) rest d q qs = elim (Bool-cases (ltb i (length s.signals))) [
  | inl inside ↦ rw inside (still_deaf s (set s.signals i sig) s.nsig rest d d.some_wait qs)
  | inr outside_of ↦ rw outside_of tt
]

not_looping : (i : ℕ) → outside ≢ looping i
not_looping i e = cc

not_leaving : outside ≢ leaving
not_leaving e = cc

Step-IsDeaf : {s t : SignalState} → IsDeaf s → Step s t → Keeps s t
unfolding interrupt
Step-IsDeaf d (arrives sig) = (
  record {
    place = d.place;
    some_wait = d.some_wait;
    other_hook = d.other_hook;
    quiet = (tt, d.quiet);
  },
  refl,
)
Step-IsDeaf {s} {t} d (advances frame rest e e') =
    let quiet = subst AllQuiet e d.quiet in
    subst (Returned (Keeps s)) e' (run_frame-IsDeaf s frame rest d quiet.0 quiet.1)
Step-IsDeaf d (changes setting e other) =
    (record { place = d.place; some_wait = d.some_wait; other_hook = other; quiet = d.quiet }, refl)
Step-IsDeaf d (enters idle e h) = absurd (d.other_hook h)
Step-IsDeaf d (calls i idle e h) = absurd (not_looping i (sym d.place ∙ e))
Step-IsDeaf d (fails i idle e h) = absurd (not_looping i (sym d.place ∙ e))
Step-IsDeaf d (ends i idle e h) = absurd (not_looping i (sym d.place ∙ e))
Step-IsDeaf d (leaves idle e) = absurd (not_leaving (sym d.place ∙ e))

Steps-IsDeaf : {s t : SignalState} → IsDeaf s → Steps s t → Keeps s t
Steps-IsDeaf d here = (d, refl)
Steps-IsDeaf d (next r step) =
    let (d', e) = Steps-IsDeaf d r in let (d'', e') = Step-IsDeaf d' step in (d'', e' ∙ e)

-- Once the function for a signal raises an error, while no call of `handle` runs and the hook is not
-- `sighook` (the one that `sighook` put back, or another that the program set since), no function is
-- called again and `sighook` is never set again, whatever signals arrive, also while `handle` runs
-- for others, and whatever other hooks the program sets.
pub call_fails-Steps :
    (s t : SignalState) (i : ℕ)
    → s.running ≡ []
    → s.place ≡ looping i
    → i < s.nsig
    → s.current.hook ≢ sighook
    → Steps (call_fails s i) t
    → (t.called ≡ (call_fails s i).called) × (t.current.hook ≢ sighook)
unfolding call_fails
call_fails-Steps s t i idle e h other r =
    let failed : IsDeaf (call_fails s i) = record {
      place = refl;
      some_wait = omega arith;
      other_hook = other;
      quiet = subst AllQuiet (sym idle) tt;
    } in
    let (d, same) = Steps-IsDeaf failed r in (same, d.other_hook)
