-- ===== src/Signal/Hook/Tests.antt =====
-- The queue of signals on a short run, and the theorems at it.
use prosody.Base.{◌<◌, ◌≡◌, ◌≢◌, refl, [], ◌∷◌, ◌++◌, arith}
use prosody.Base.Int.{pos}
use prosody.Base.Lua.{ret, fault, ◌>>=◌}
use prosody.Signal.Hook.{
  sighook, own, HookSetting, our_setting, outside, SignalState, initial, take_hook, enqueue, handle,
  enter, call_fails, here, next, arrives, Steps, interrupt, advances, run_frame, tests, checks,
  saves_hook, loads, adds, puts,
}
use prosody.Signal.Hook.Runs.{waiting_from, CalmRun, start, arrive, enter_hook}
use prosody.Signal.Hook.Told.{CalmRun-told}
use prosody.Signal.Hook.Flaws.{call_fails-Steps}

abbrev no_hook : HookSetting
no_hook = record { hook = own 0; mask = 0; count = 0 }

not_ours : no_hook.hook ≢ sighook
not_ours e = cc

-- SIGTERM and SIGHUP have arrived, and `sighook` is entered.
abbrev two_waiting : SignalState
two_waiting = enter (handle (handle (initial no_hook) (pos 15)) (pos 1))

two_run : CalmRun no_hook (pos 15 ∷ pos 1 ∷ []) two_waiting
unfolding handle take_hook enqueue enter
two_run = enter_hook (arrive (pos 1) (arrive (pos 15) start (λ e. cc)) (λ e. cc)) refl refl

CalmRun-told_example :
    Steps (initial no_hook) two_waiting
    × (pos 15 ∷ pos 1 ∷ [] ≡ two_waiting.called ++ waiting_from two_waiting.place two_waiting)
    × (two_waiting.place ≡ outside → 0 < two_waiting.nsig → two_waiting.current ≡ our_setting)
    × (two_waiting.place ≡ outside
        → two_waiting.nsig ≡ 0
        → (pos 15 ∷ pos 1 ∷ [] ≡ two_waiting.called) × (two_waiting.current ≡ no_hook))
CalmRun-told_example = CalmRun-told not_ours two_run

-- The function for SIGTERM raises an error; then SIGTERM arrives again, SIGHUP interrupts the call of
-- `handle`, and the two calls come to their tests for room.
abbrev after_error : SignalState
after_error = record (call_fails two_waiting 0) { running = checks (pos 1) ∷ checks (pos 15) ∷ [] }

error_run : Steps (call_fails two_waiting 0) after_error
unfolding handle take_hook enqueue enter call_fails interrupt run_frame
error_run =
    let r1 : Steps (call_fails two_waiting 0) (interrupt (call_fails two_waiting 0) (pos 15)) =
      next here (arrives (pos 15)) in
    let r2 : Steps (call_fails two_waiting 0)
        (record (call_fails two_waiting 0) { running = checks (pos 15) ∷ [] }) =
      next r1 (advances (tests (pos 15)) [] refl refl) in
    let r3 : Steps (call_fails two_waiting 0)
        (interrupt (record (call_fails two_waiting 0) { running = checks (pos 15) ∷ [] }) (pos 1)) =
      next r2 (arrives (pos 1)) in
    next r3 (advances (tests (pos 1)) (checks (pos 15) ∷ []) refl refl)

call_fails-Steps_example : (after_error.called ≡ pos 15 ∷ []) × (after_error.current.hook ≢ sighook)
unfolding handle take_hook enqueue enter call_fails
call_fails-Steps_example =
    call_fails-Steps two_waiting after_error 0 refl refl (omega arith) not_ours error_run

-- SIGTERM arrives, and SIGHUP when our hook is set and `nsig` is still 0: what is saved is our hook.
abbrev interrupted : SignalState
interrupted = record (initial no_hook) {
  current = our_setting;
  saved = no_hook;
  running = checks (pos 15) ∷ [];
}

saves_ours :
    (run_frame (interrupt interrupted (pos 1)) (tests (pos 1)) (checks (pos 15) ∷ []) >>= λ a.
    run_frame a (saves_hook (pos 1)) (checks (pos 15) ∷ []) >>= λ b. ret b.saved.hook)
    ≡ ret sighook
unfolding interrupt run_frame
saves_ours = refl

-- A call that passed its test for room, and was interrupted by one that took the last place.
abbrev filled : SignalState
filled = record (initial no_hook) { nsig = 32; running = loads (pos 1) ∷ [] }

overruns :
    (run_frame filled (loads (pos 1)) [] >>= λ a.
    run_frame a (adds (pos 1) 32) [] >>= λ b. run_frame b (puts (pos 1) 32) [])
    ≡ fault
unfolding run_frame
overruns = refl
