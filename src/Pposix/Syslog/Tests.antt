-- ===== src/Pposix/Syslog/Tests.antt =====
-- Calls for syslog.
use prosody.Base.{◌≡◌, refl, [], ◌∷◌, none, some, length, leb, codes}
use prosody.Base.Lua.{c_string, ret, ◌>>=◌}
use prosody.Pposix.Syslog.{Syslog, Libc, syslog_log, syslog_setmask}
use prosody.Pposix.Syslog.Levels.{warn, notice, is_sent, level_name, setmask-log}
use prosody.Pposix.Syslog.Owned.{open_with, close, run, IsOwned, run-IsOwned}

setmask-log_example :
    (syslog_setmask (some (level_name warn)) >>= λ mask.
    syslog_log (some (level_name notice)) [] (some (codes "hello")) >>= λ sent.
    ret (is_sent mask sent.0))
    ≡ ret (leb 3 2)
setmask-log_example = setmask-log warn notice [] (some (codes "hello"))

with_message : syslog_log none (codes "c2s") (some (codes "hello")) ≡ ret (5, codes "c2s: hello")
unfolding syslog_log c_string
with_message = refl

abbrev closed : Syslog
closed = record { syslog_ident = none; kept = none; held = [] }

abbrev fresh : Libc
fresh = record { strdup = λ held s. some (length held); openlog = λ kept ident. ident }

run-IsOwned_example :
    (s' : Syslog) × (run fresh (open_with (codes "prosody") none ∷ close ∷ []) closed ≡ ret s')
    × IsOwned s'
run-IsOwned_example =
    run-IsOwned fresh (open_with (codes "prosody") none ∷ close ∷ []) closed (λ kept ident. refl)
      (record { one_block = refl; same_block = refl })
