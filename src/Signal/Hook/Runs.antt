-- ===== src/Signal/Hook/Runs.antt =====
-- Where no Lua function fails, no signal arrives inside `handle` or just before `nsig = 0` and the
-- program keeps its hook, each signal that was kept is told once and in order.
use prosody.Base.{
  ℕ, ◌+◌, ◌≤◌, ◌<◌, ◌≡◌, ◌≢◌, ◌∙◌, refl, sym, ap, true, false, List, [], ◌∷◌, ◌++◌, set, take, drop,
  length, length-set, length-take, ltb, if◌then◌else◌, arith, dec_lt, ℕ_discrete,
}
use mathlib.Core.List.{append_assoc}
use prosody.Base.Int.{ℤ}
use prosody.Signal.Hook.{
  sighook, HookSetting, our_setting, max_pending_signals, Place, outside, looping, leaving,
  SignalState, initial, take_hook, enqueue, handle, enter, call_next, end_loop, leave,
}
use prosody.Signal.Hook.Lists.{take-set_end, drop-append}

-- The signals that are kept and not told yet.
abbrev pub waiting_from : Place → SignalState → List ℤ
waiting_from outside s = take s.nsig s.signals
waiting_from (looping i) s = drop i (take s.nsig s.signals)
waiting_from leaving s = []

-- Runs in which every function returns, no signal arrives while `handle` runs or between the loop and
-- `nsig = 0`, and the program does not change its hook, with the signals for which there was room.
pub data CalmRun (setting : HookSetting) : List ℤ → SignalState → Type 0 where
  start : CalmRun setting [] (initial setting)
  arrive :
      {kept : List ℤ} {s : SignalState} (sig : ℤ)
      → CalmRun setting kept s
      → s.place ≢ leaving
      → CalmRun setting
          (if ltb s.nsig max_pending_signals then kept ++ (sig ∷ []) else kept)
          (handle s sig)
  enter_hook :
      {kept : List ℤ} {s : SignalState}
      → CalmRun setting kept s
      → s.place ≡ outside
      → s.current.hook ≡ sighook
      → CalmRun setting kept (enter s)
  call :
      {kept : List ℤ} {s : SignalState} (i : ℕ)
      → CalmRun setting kept s
      → s.place ≡ looping i
      → i < s.nsig
      → CalmRun setting kept (call_next s i)
  end :
      {kept : List ℤ} {s : SignalState} (i : ℕ)
      → CalmRun setting kept s
      → s.place ≡ looping i
      → ¬ (i < s.nsig)
      → CalmRun setting kept (end_loop s)
  reset :
      {kept : List ℤ} {s : SignalState}
      → CalmRun setting kept s
      → s.place ≡ leaving
      → CalmRun setting kept (leave s)

-- The hook that is set: ours where signals wait outside of `sighook`, and else the program's own.
abbrev pub HookFor : HookSetting → Place → SignalState → Type 0
HookFor setting outside s =
    (s.nsig ≡ 0 → s.current ≡ setting)
    × (0 < s.nsig → (s.current ≡ our_setting) × (s.saved ≡ setting))
HookFor setting (looping i) s = (s.current ≡ setting) × (0 < s.nsig) × (i ≤ s.nsig)
HookFor setting leaving s = s.current ≡ setting

pub record IsCalm (setting : HookSetting) (kept : List ℤ) (s : SignalState) : Type 0 where
  pub size : length s.signals ≡ max_pending_signals
  pub idle : s.running ≡ []
  pub bounded : s.nsig ≤ max_pending_signals
  pub told_in_order : kept ≡ s.called ++ waiting_from s.place s
  pub hook_lem : HookFor setting s.place s

-- `handle` with room.
abbrev pushed : SignalState → ℤ → SignalState
pushed s sig = record s { signals = set s.signals s.nsig sig; nsig = s.nsig + 1 }

handle_first :
    (s : SignalState) (sig : ℤ)
    → s.nsig ≡ 0
    → handle s sig ≡ record (pushed s sig) { saved = s.current; current = our_setting }
unfolding handle take_hook enqueue
handle_first s sig h = ground (arith, h)

handle_more : (s : SignalState) (sig : ℤ) → 0 < s.nsig → s.nsig < 32 → handle s sig ≡ pushed s sig
unfolding handle take_hook enqueue
handle_more s sig h k = ground arith

handle_full : (s : SignalState) (sig : ℤ) → 32 ≤ s.nsig → handle s sig ≡ s
unfolding handle take_hook enqueue
handle_full s sig h = ground arith

module _ {setting : HookSetting} {kept : List ℤ} {s : SignalState} (v : IsCalm setting kept s) where
  pub length_taken : length (take s.nsig s.signals) ≡ s.nsig
  length_taken = omega (arith, length-take s.nsig s.signals, v.size, v.bounded)

  -- One more signal waits behind the others.
  waiting-pushed :
      (sig : ℤ) (p : Place)
      → p ≢ leaving
      → s.nsig < 32
      → HookFor setting p s
      → waiting_from p (pushed s sig) ≡ waiting_from p s ++ (sig ∷ [])
  waiting-pushed sig outside ne h k = take-set_end s.nsig s.signals sig (omega (arith, v.size))
  waiting-pushed sig (looping i) ne h k =
      ap (drop i) (take-set_end s.nsig s.signals sig (omega (arith, v.size)))
      ∙ drop-append i (take s.nsig s.signals) sig (omega (arith, length_taken, k.2))
  waiting-pushed sig leaving ne h k = absurd (ne refl)

  told_pushed :
      (sig : ℤ)
      → s.place ≢ leaving
      → s.nsig < 32
      → kept ++ (sig ∷ []) ≡ s.called ++ waiting_from s.place (pushed s sig)
  told_pushed sig ne h =
      ap (λ ks. ks ++ (sig ∷ [])) v.told_in_order
      ∙ append_assoc s.called (waiting_from s.place s) (sig ∷ [])
      ∙ ap (λ r. s.called ++ r) (sym (waiting-pushed sig s.place ne h v.hook_lem))

  arrive_first :
      (sig : ℤ)
      → s.place ≢ leaving
      → s.nsig ≡ 0
      → IsCalm setting
          (kept ++ (sig ∷ []))
          (record (pushed s sig) { saved = s.current; current = our_setting })
  arrive_first sig ne h = record {
    size = length-set s.signals s.nsig sig ∙ v.size;
    idle = v.idle;
    bounded = omega arith;
    told_in_order = told_pushed sig ne (omega arith) ∙ same s.place;
    hook_lem = go s.place v.hook_lem ne;
  }
    where
      same :
          (p : Place)
          → s.called ++ waiting_from p (pushed s sig)
            ≡ s.called
              ++ waiting_from p (record (pushed s sig) { saved = s.current; current = our_setting })
      same outside = refl
      same (looping i) = refl
      same leaving = refl

      go :
          (p : Place)
          → HookFor setting p s
          → p ≢ leaving
          → HookFor setting p (record (pushed s sig) { saved = s.current; current = our_setting })
      go outside k ne = (λ e. absurd (omega arith), λ e. (refl, k.0 h))
      go (looping i) k ne = absurd (omega (arith, k.1))
      go leaving k ne = absurd (ne refl)

  arrive_more :
      (sig : ℤ)
      → s.place ≢ leaving
      → 0 < s.nsig
      → s.nsig < 32
      → IsCalm setting (kept ++ (sig ∷ [])) (pushed s sig)
  arrive_more sig ne h room = record {
    size = length-set s.signals s.nsig sig ∙ v.size;
    idle = v.idle;
    bounded = omega arith;
    told_in_order = told_pushed sig ne room;
    hook_lem = go s.place v.hook_lem ne;
  }
    where
      go : (p : Place) → HookFor setting p s → p ≢ leaving → HookFor setting p (pushed s sig)
      go outside k ne = (λ e. absurd (omega arith), λ e. k.1 h)
      go (looping i) k ne = (k.0, omega arith, omega (arith, k.2))
      go leaving k ne = absurd (ne refl)

  pub arrive-IsCalm :
      (sig : ℤ)
      → s.place ≢ leaving
      → IsCalm setting
          (if ltb s.nsig max_pending_signals then kept ++ (sig ∷ []) else kept)
          (handle s sig)
  arrive-IsCalm sig ne = elim (dec_lt s.nsig 32) [
    | no h ↦
        let test : ltb s.nsig max_pending_signals ≡ false = ground arith in
        rw (test, handle_full s sig (omega arith)) v
    | yes h ↦
        let test : ltb s.nsig max_pending_signals ≡ true = ground arith in
        elim (ℕ_discrete s.nsig 0) [
          | yes e ↦ rw (test, handle_first s sig e) (arrive_first sig ne e)
          | no e ↦ rw (test, handle_more s sig (omega arith) h) (arrive_more sig ne (omega arith) h)
        ]
  ]
