-- ===== src/Pposix/Syslog.antt =====
-- util-src/pposix.c: the functions for syslog.
pub mod Facilities
pub mod Levels
pub mod Owned
mod Tests
use Prim.Native.Nat.{bit_or}
use prosody.Base.{
  ℕ, zero, suc, ◌+◌, ◌-◌, ◌^◌, Bool, true, false, List, [], ◌∷◌, ◌++◌, Option, none, some,
  get_elem?, ◌==◌, if◌then◌else◌, codes,
}
use prosody.Base.Lua.{c_string, check_option, Outcome, ret, raise, fault, ◌>>=◌}

-- LOG_AUTH and so on.
pub data Facility : Type 0 where
  auth authpriv cron daemon ftp kern local0 local1 local2 local3 local4 local5 local6 local7 lpr
        mail news syslog user uucp :
      Facility

abbrev pub facility_strings : List (List ℕ)
facility_strings =
    codes "auth"
    ∷ codes "authpriv"
    ∷ codes "cron"
    ∷ codes "daemon"
    ∷ codes "ftp"
    ∷ codes "kern"
    ∷ codes "local0"
    ∷ codes "local1"
    ∷ codes "local2"
    ∷ codes "local3"
    ∷ codes "local4"
    ∷ codes "local5"
    ∷ codes "local6"
    ∷ codes "local7"
    ∷ codes "lpr"
    ∷ codes "mail"
    ∷ codes "syslog"
    ∷ codes "user"
    ∷ codes "uucp"
    ∷ []

abbrev pub facility_constants : List Facility
facility_constants =
    auth ∷ authpriv ∷ cron ∷ daemon ∷ ftp ∷ kern ∷ local0 ∷ local1 ∷ local2 ∷ local3 ∷ local4
    ∷ local5 ∷ local6 ∷ local7 ∷ lpr ∷ mail ∷ news ∷ syslog ∷ user ∷ uucp ∷ []

-- `array[i]`
abbrev pub at_index {ℓ} : {A : Type ℓ} → List A → ℕ → Outcome A
at_index array i = elim (get_elem? array i) [ none ↦ fault | some a ↦ ret a ]

-- The argument of `luaL_checkoption`, where one is given, or the default.
abbrev pub given_or : Option (List ℕ) → List ℕ → List ℕ
given_or none name = name
given_or (some s) name = s

pub facility_of : Option (List ℕ) → Outcome Facility
facility_of arg = check_option facility_strings (given_or arg (codes "daemon")) >>= λ i.
    at_index facility_constants i

-- `syslog_ident`, the pointer that openlog(3) keeps, and the blocks that strdup(3) gave and that were
-- not freed. A block is a number.
pub record Syslog : Type 0 where
  pub syslog_ident : Option ℕ
  pub kept : Option ℕ
  pub held : List ℕ

-- `free`; a block that is not held must not be freed.
pub free : List ℕ → ℕ → Outcome (List ℕ)
free [] p = fault
free (q ∷ held) p =
    let rest = free held p in if q == p then ret held else (rest >>= λ others. ret (q ∷ others))

-- `if(syslog_ident) free(syslog_ident)`
pub free_ident : Syslog → Outcome (List ℕ)
free_ident s = elim s.syslog_ident [ none ↦ ret s.held | some p ↦ free s.held p ]

-- strdup(3), over the blocks that are held and a string, with `none` for NULL; and the pointer that
-- openlog(3) keeps, of the one that it kept before and its argument.
pub record Libc : Type 0 where
  pub strdup : List ℕ → List ℕ → Option ℕ
  pub openlog : Option ℕ → Option ℕ → Option ℕ

-- The blocks that are held after strdup(3).
abbrev pub with_block : Option ℕ → List ℕ → List ℕ
with_block none held = held
with_block (some p) held = p ∷ held

-- `syslog_ident = strdup(...); openlog(syslog_ident, LOG_PID, facility)`
abbrev pub opened : Libc → Option ℕ → List ℕ → List ℕ → Syslog
opened libc kept held ident =
    let block = libc.strdup held ident in
    record { syslog_ident = block; kept = libc.openlog kept block; held = with_block block held }

-- `lc_syslog_open`, with the facility that openlog(3) is given.
pub syslog_open : Libc → Syslog → List ℕ → Option (List ℕ) → Outcome (Facility × Syslog)
syslog_open libc s ident facility_name = facility_of facility_name >>= λ facility.
    free_ident s >>= λ held. ret (facility, opened libc s.kept held (c_string ident))

-- `lc_syslog_close`
pub syslog_close : Syslog → Outcome Syslog
syslog_close s =
    free_ident s >>= λ held. ret (record { syslog_ident = none; kept = none; held = held })

abbrev pub level_strings : List (List ℕ)
level_strings = codes "debug" ∷ codes "info" ∷ codes "notice" ∷ codes "warn" ∷ codes "error" ∷ []

-- LOG_DEBUG, LOG_INFO, LOG_NOTICE, LOG_WARNING and LOG_CRIT
abbrev pub level_constants : List ℕ
level_constants = 7 ∷ 6 ∷ 5 ∷ 4 ∷ 2 ∷ []

-- `lc_syslog_log`: the level and the text that syslog(3) is given.
pub syslog_log : Option (List ℕ) → List ℕ → Option (List ℕ) → Outcome (ℕ × List ℕ)
syslog_log level_name second third =
    check_option level_strings (given_or level_name (codes "notice")) >>= λ i.
    at_index level_constants i >>= λ level. ret (
      level,
      elim third [
        | none ↦ c_string second
        | some message ↦ c_string second ++ codes ": " ++ c_string message
      ],
    )

-- The `do` of `lc_syslog_setmask`, with `left` rounds to go behind this one; LOG_MASK is `1 << level`.
pub mask_loop : ℕ → ℕ → ℕ → Outcome ℕ
mask_loop zero level_idx mask =
    at_index level_constants level_idx >>= λ level. ret (bit_or mask (2 ^ level))
mask_loop (suc left) level_idx mask = at_index level_constants level_idx >>= λ level.
    mask_loop left (level_idx + 1) (bit_or mask (2 ^ level))

-- `lc_syslog_setmask`: the mask that setlogmask(3) is given.
pub syslog_setmask : Option (List ℕ) → Outcome ℕ
syslog_setmask level_name =
    check_option level_strings (given_or level_name (codes "notice")) >>= λ level_idx.
    mask_loop (4 - level_idx) level_idx 0
