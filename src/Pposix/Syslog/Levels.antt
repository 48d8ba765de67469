-- ===== src/Pposix/Syslog/Levels.antt =====
-- Which messages pass the mask of a least level.
use prosody.Base.{ℕ, ◌≡◌, refl, Bool, not, List, Option, some, leb, ◌==◌, codes}
use prosody.Base.Bits.{digit}
use prosody.Base.Lua.{c_string, ret, ◌>>=◌}
use prosody.Pposix.Syslog.{syslog_log, mask_loop, syslog_setmask}

pub data Level : Type 0 where
  debug info notice warn error : Level

abbrev pub level_name : Level → List ℕ
level_name debug = codes "debug"
level_name info = codes "info"
level_name notice = codes "notice"
level_name warn = codes "warn"
level_name error = codes "error"

abbrev pub rank : Level → ℕ
rank debug = 0
rank info = 1
rank notice = 2
rank warn = 3
rank error = 4

-- Whether syslog(3) sends a message under a mask.
abbrev pub is_sent : ℕ → ℕ → Bool
is_sent mask level = not (digit level mask == 0)

-- Once a least level is set, the messages of that level and of those behind it are
-- sent, and no others, whether the call has two arguments or three.
pub setmask-log :
    (least level : Level) (second : List ℕ) (third : Option (List ℕ))
    → (syslog_setmask (some (level_name least)) >>= λ mask.
        syslog_log (some (level_name level)) second third >>= λ sent. ret (is_sent mask sent.0))
      ≡ ret (leb (rank least) (rank level))
unfolding syslog_setmask syslog_log mask_loop c_string
setmask-log debug debug second third = refl
setmask-log debug info second third = refl
setmask-log debug notice second third = refl
setmask-log debug warn second third = refl
setmask-log debug error second third = refl
setmask-log info debug second third = refl
setmask-log info info second third = refl
setmask-log info notice second third = refl
setmask-log info warn second third = refl
setmask-log info error second third = refl
setmask-log notice debug second third = refl
setmask-log notice info second third = refl
setmask-log notice notice second third = refl
setmask-log notice warn second third = refl
setmask-log notice error second third = refl
setmask-log warn debug second third = refl
setmask-log warn info second third = refl
setmask-log warn notice second third = refl
setmask-log warn warn second third = refl
setmask-log warn error second third = refl
setmask-log error debug second third = refl
setmask-log error info second third = refl
setmask-log error notice second third = refl
setmask-log error warn second third = refl
setmask-log error error second third = refl
