-- ===== src/Signal/Hook.antt =====
-- util-src/signal.c: `handle`, which the system calls when a signal arrives, and `sighook`, the debug
-- hook that calls the Lua functions, in a program with the one Lua thread `Lsig`. A signal arrives at
-- any moment, inside `sighook` and, where it is another signal than the one that is handled, inside
-- `handle`, so both are sequences of steps here; Lua runs no hook inside a hook.
pub mod Uninterrupted
pub mod Lists
pub mod Runs
pub mod Told
pub mod Flaws
mod Tests
use prosody.Base.{
  ℕ, zero, suc, ◌+◌, ◌<◌, ◌≡◌, ◌≢◌, Bool, true, false, List, [], ◌∷◌, ◌++◌, get_or, set, length,
  ltb, ◌==◌, if◌then◌else◌, replicate,
}
use prosody.Base.Int.{ℤ, pos}
use prosody.Base.Lua.{Outcome, ret, fault}

-- What `lua_gethook`, `lua_gethookmask` and `lua_gethookcount` tell: `sighook` or a hook of the
-- program's own (or none), and its parameters.
pub data Hook : Type 0 where
  sighook : Hook
  own : ℕ → Hook

pub record HookSetting : Type 0 where
  pub hook : Hook
  pub mask : ℕ
  pub count : ℕ

-- `sighook, LUA_MASKCALL | LUA_MASKRET | LUA_MASKCOUNT, 1`
abbrev pub our_setting : HookSetting
our_setting = record { hook = sighook; mask = 11; count = 1 }

abbrev pub max_pending_signals : ℕ
max_pending_signals = 32

-- Where the program is: outside `sighook`, in its loop at `i`, or between the loop and `nsig = 0`.
pub data Place : Type 0 where
  outside : Place
  looping : ℕ → Place
  leaving : Place

-- Where a call of `handle` for a signal stands: at the test of `nsig`, at each of the three variables
-- that it fills, at `lua_sethook`, at the test for room, and at the parts of `signals[nsig++] = sig`:
-- `nsig` is read, then written, then the element is, which is one of the orders that C allows.
pub data Frame : Type 0 where
  tests : ℤ → Frame
  saves_hook : ℤ → Frame
  saves_mask : ℤ → Frame
  saves_count : ℤ → Frame
  sets : ℤ → Frame
  checks : ℤ → Frame
  loads : ℤ → Frame
  adds : ℤ → ℕ → Frame
  puts : ℤ → ℕ → Frame

-- The static variables of the file and the debug hook of `Lsig`, the Lua thread that they all are
-- about; where the program is, the calls of `handle` that run, the innermost first, and the signals
-- whose functions were called, in order.
pub record SignalState : Type 0 where
  pub current : HookSetting
  pub saved : HookSetting
  pub signals : List ℤ
  pub nsig : ℕ
  pub place : Place
  pub running : List Frame
  pub called : List ℤ

-- The state of a program whose hook is `setting`, before the first signal.
abbrev pub initial : HookSetting → SignalState
initial setting = record {
  current = setting;
  saved = record { hook = own 0; mask = 0; count = 0 };
  signals = replicate max_pending_signals (pos 0);
  nsig = 0;
  place = outside;
  running = [];
  called = [];
}

-- The next part of the innermost call of `handle`; the calls behind it wait.
pub run_frame : SignalState → Frame → List Frame → Outcome SignalState
run_frame s (tests sig) rest =
    ret (record s { running = (if s.nsig == 0 then saves_hook sig else checks sig) ∷ rest })
run_frame s (saves_hook sig) rest =
    ret (record s {
      saved = record s.saved { hook = s.current.hook };
      running = saves_mask sig ∷ rest;
    })
run_frame s (saves_mask sig) rest = ret (record s {
  saved = record s.saved { mask = s.current.mask };
  running = saves_count sig ∷ rest;
})
run_frame s (saves_count sig) rest =
    ret (record s { saved = record s.saved { count = s.current.count }; running = sets sig ∷ rest })
run_frame s (sets sig) rest = ret (record s { current = our_setting; running = checks sig ∷ rest })
run_frame s (checks sig) rest =
    ret (record s { running = (if ltb s.nsig max_pending_signals then loads sig ∷ rest else rest) })
run_frame s (loads sig) rest = ret (record s { running = adds sig s.nsig ∷ rest })
run_frame s (adds sig i) rest = ret (record s { nsig = i + 1; running = puts sig i ∷ rest })
run_frame s (puts sig i) rest =
    if ltb i (length s.signals)
    then ret (record s { signals = set s.signals i sig; running = rest })
    else fault

-- `if(nsig == 0)`: store the hook that there is and set ours.
pub take_hook : SignalState → SignalState
take_hook s = if s.nsig == 0 then record s { saved = s.current; current = our_setting } else s

-- `if(nsig < MAX_PENDING_SIGNALS)`: keep the signal.
pub enqueue : SignalState → ℤ → SignalState
enqueue s sig =
    if ltb s.nsig max_pending_signals
    then record s { signals = set s.signals s.nsig sig; nsig = s.nsig + 1 }
    else s

-- All of `handle`, where no other signal interrupts it.
pub handle : SignalState → ℤ → SignalState
handle s sig = enqueue (take_hook s) sig

-- A call of `handle` begins.
pub interrupt : SignalState → ℤ → SignalState
interrupt s sig = record s { running = tests sig ∷ s.running }

-- The start of `sighook`: the old hook is restored.
pub enter : SignalState → SignalState
enter s = record s { current = s.saved; place = looping 0 }

-- `lua_call` of the function for `signals[i]`, which returns.
pub call_next : SignalState → ℕ → SignalState
call_next s i = record s {
  called = s.called ++ (get_or s.signals i (pos 0) ∷ []);
  place = looping (i + 1);
}

-- The same where the function raises an error, or where there is none: Lua leaves `sighook`.
pub call_fails : SignalState → ℕ → SignalState
call_fails s i = record s {
  called = s.called ++ (get_or s.signals i (pos 0) ∷ []);
  place = outside;
}

-- The test of the loop fails.
pub end_loop : SignalState → SignalState
end_loop s = record s { place = leaving }

-- `nsig = 0`
pub leave : SignalState → SignalState
leave s = record s { nsig = 0; place = outside }

-- What can happen next: a signal arrives, the innermost call of `handle` goes on, or, where none runs,
-- the program does, which also sets hooks of its own.
pub data Step (s : SignalState) : SignalState → Type 0 where
  arrives : (sig : ℤ) → Step s (interrupt s sig)
  advances :
      {t : SignalState} (frame : Frame) (rest : List Frame)
      → s.running ≡ frame ∷ rest
      → run_frame s frame rest ≡ ret t
      → Step s t
  changes :
      (setting : HookSetting)
      → s.running ≡ []
      → setting.hook ≢ sighook
      → Step s (record s { current = setting })
  enters : s.running ≡ [] → s.place ≡ outside → s.current.hook ≡ sighook → Step s (enter s)
  calls : (i : ℕ) → s.running ≡ [] → s.place ≡ looping i → i < s.nsig → Step s (call_next s i)
  fails : (i : ℕ) → s.running ≡ [] → s.place ≡ looping i → i < s.nsig → Step s (call_fails s i)
  ends : (i : ℕ) → s.running ≡ [] → s.place ≡ looping i → ¬ (i < s.nsig) → Step s (end_loop s)
  leaves : s.running ≡ [] → s.place ≡ leaving → Step s (leave s)

pub data Steps (s : SignalState) : SignalState → Type 0 where
  here : Steps s s
  next : {t u : SignalState} → Steps s t → Step t u → Steps s u
