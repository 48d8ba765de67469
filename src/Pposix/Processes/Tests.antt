-- ===== src/Pposix/Processes/Tests.antt =====
-- The theorem where the second fork(2) fails.
use prosody.Base.{◌≡◌, true, [], ◌∷◌, none, some, arith}
use prosody.Base.Int.{pos}
use prosody.Base.Lua.{boolean, integer}
use prosody.Pposix.Processes.{returns, exits, daemonize}
use prosody.Pposix.Processes.Daemon.{daemonize-background}

daemonize-background_example :
    daemonize (pos 500) (some 699) (pos 700) none
    ≡ returns (boolean true ∷ integer (pos 700) ∷ []) ∷ exits ∷ []
daemonize-background_example =
    daemonize-background (pos 500) (pos 700) 699 none (ground arith) (ground arith)
