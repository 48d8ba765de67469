-- ===== src/Signal/Hook/Told.antt =====
-- What `sighook` does in a calm run, and what every calm run comes to.
use prosody.Base.{
  ℕ, ◌+◌, ◌<◌, ◌≡◌, ◌≢◌, ◌∙◌, refl, sym, ap, subst, List, [], ◌∷◌, ◌++◌, get_or, take, drop, arith,
  dec_lt,
}
use mathlib.Core.List.{append_assoc, append-nil}
use prosody.Base.Int.{ℤ, pos}
use prosody.Signal.Hook.{
  sighook, HookSetting, our_setting, Place, outside, looping, leaving, SignalState, initial, enter,
  call_next, end_loop, leave, Steps, here, next, enters, calls, ends, leaves,
}
use prosody.Signal.Hook.Uninterrupted.{handle-Steps}
use prosody.Signal.Hook.Lists.{drop-take, drop_all}
use prosody.Signal.Hook.Runs.{
  waiting_from, CalmRun, start, arrive, enter_hook, call, end, reset, HookFor, IsCalm, length_taken,
  arrive-IsCalm,
}

initial-IsCalm : (setting : HookSetting) → IsCalm setting [] (initial setting)
initial-IsCalm setting = record {
  size = refl;
  idle = refl;
  bounded = omega arith;
  told_in_order = refl;
  hook_lem = (λ e. refl, λ h. absurd (omega arith));
}

module _ {setting : HookSetting} {kept : List ℤ} {s : SignalState} (v : IsCalm setting kept s) where
  -- The invariant at a place that is known.
  at_place : {p : Place} → s.place ≡ p → HookFor setting p s
  at_place e = subst (λ p. HookFor setting p s) e v.hook_lem

  told_at : {p : Place} → s.place ≡ p → kept ≡ s.called ++ waiting_from p s
  told_at e = subst (λ p. kept ≡ s.called ++ waiting_from p s) e v.told_in_order

  -- Outside of `sighook` our hook is set only where a signal waits.
  waits_outside : setting.hook ≢ sighook → s.place ≡ outside → s.current.hook ≡ sighook → 0 < s.nsig
  waits_outside ours e h = elim (dec_lt 0 s.nsig) [
    | yes k ↦ k
    | no k ↦ absurd (ours (sym (ap (λ c. c.hook) ((at_place e).0 (omega arith))) ∙ h))
  ]

  enter-IsCalm :
      setting.hook ≢ sighook
      → s.place ≡ outside
      → s.current.hook ≡ sighook
      → IsCalm setting kept (enter s)
  unfolding enter
  enter-IsCalm ours e h =
      let some_wait = waits_outside ours e h in
      record {
        size = v.size;
        idle = v.idle;
        bounded = v.bounded;
        told_in_order = told_at e;
        hook_lem = (((at_place e).1 some_wait).1, some_wait, omega arith);
      }

  call_next-IsCalm :
      (i : ℕ) → s.place ≡ looping i → i < s.nsig → IsCalm setting kept (call_next s i)
  unfolding call_next
  call_next-IsCalm i e h =
      let x = get_or s.signals i (pos 0) in
      let rest = drop (i + 1) (take s.nsig s.signals) in
      record {
        size = v.size;
        idle = v.idle;
        bounded = v.bounded;
        told_in_order =
            told_at e
            ∙ ap (λ r. s.called ++ r)
                (drop-take i s.nsig s.signals (pos 0) h (omega (arith, v.size, v.bounded)))
            ∙ sym (append_assoc s.called (x ∷ []) rest);
        hook_lem = ((at_place e).0, (at_place e).1, omega arith);
      }

  end_loop-IsCalm :
      (i : ℕ) → s.place ≡ looping i → ¬ (i < s.nsig) → IsCalm setting kept (end_loop s)
  unfolding end_loop
  end_loop-IsCalm i e h = record {
    size = v.size;
    idle = v.idle;
    bounded = v.bounded;
    told_in_order =
        told_at e
        ∙ ap (λ r. s.called ++ r)
            (drop_all i (take s.nsig s.signals) (omega (arith, length_taken v)));
    hook_lem = (at_place e).0;
  }

  leave-IsCalm : s.place ≡ leaving → IsCalm setting kept (leave s)
  unfolding leave
  leave-IsCalm e = record {
    size = v.size;
    idle = v.idle;
    bounded = omega arith;
    told_in_order = told_at e;
    hook_lem = (λ z. at_place e, λ z. absurd (omega arith));
  }

CalmRun-IsCalm :
    {setting : HookSetting} {kept : List ℤ} {s : SignalState}
    → setting.hook ≢ sighook
    → CalmRun setting kept s
    → IsCalm setting kept s
CalmRun-IsCalm {setting} ours start = initial-IsCalm setting
CalmRun-IsCalm ours (arrive sig run ne) = arrive-IsCalm (CalmRun-IsCalm ours run) sig ne
CalmRun-IsCalm ours (enter_hook run e h) = enter-IsCalm (CalmRun-IsCalm ours run) ours e h
CalmRun-IsCalm ours (call i run e h) = call_next-IsCalm (CalmRun-IsCalm ours run) i e h
CalmRun-IsCalm ours (end i run e h) = end_loop-IsCalm (CalmRun-IsCalm ours run) i e h
CalmRun-IsCalm ours (reset run e) = leave-IsCalm (CalmRun-IsCalm ours run) e

-- A calm run is one of those that `Step` allows.
CalmRun-Steps :
    {setting : HookSetting} {kept : List ℤ} {s : SignalState}
    → setting.hook ≢ sighook
    → CalmRun setting kept s
    → Steps (initial setting) s
CalmRun-Steps ours start = here
CalmRun-Steps ours (arrive sig run ne) =
    handle-Steps sig (CalmRun-IsCalm ours run).size (CalmRun-Steps ours run)
CalmRun-Steps ours (enter_hook run e h) =
    next (CalmRun-Steps ours run) (enters (CalmRun-IsCalm ours run).idle e h)
CalmRun-Steps ours (call i run e h) =
    next (CalmRun-Steps ours run) (calls i (CalmRun-IsCalm ours run).idle e h)
CalmRun-Steps ours (end i run e h) =
    next (CalmRun-Steps ours run) (ends i (CalmRun-IsCalm ours run).idle e h)
CalmRun-Steps ours (reset run e) =
    next (CalmRun-Steps ours run) (leaves (CalmRun-IsCalm ours run).idle e)

-- In a run in which every function returns, no signal arrives while `handle` runs for another one or
-- between the loop and `nsig = 0`, and the program, whose own hook is not `sighook`, does not change
-- it: the run is one that the steps allow, the functions called so far and the signals that wait are
-- those for which there was room, in order and each once; outside of `sighook`, where signals wait,
-- our hook is set, and where none waits all were told and the program's own hook is back.
pub CalmRun-told :
    {setting : HookSetting} {kept : List ℤ} {s : SignalState}
    → setting.hook ≢ sighook
    → CalmRun setting kept s
    → Steps (initial setting) s
      × (kept ≡ s.called ++ waiting_from s.place s)
      × (s.place ≡ outside → 0 < s.nsig → s.current ≡ our_setting)
      × (s.place ≡ outside → s.nsig ≡ 0 → (kept ≡ s.called) × (s.current ≡ setting))
CalmRun-told {kept = kept} {s = s} ours run =
    let v = CalmRun-IsCalm ours run in
    (
      CalmRun-Steps ours run,
      v.told_in_order,
      λ e h. ((at_place v e).1 h).0,
      λ e h. (
        told_at v e ∙ ap (λ n. s.called ++ take n s.signals) h ∙ append-nil s.called,
        (at_place v e).0 h,
      ),
    )
