-- ===== src/Pposix/Syslog/Facilities.antt =====
-- Which facility a name opens.
use prosody.Base.{
  ℕ, ◌+◌, ◌<◌, ◌≡◌, refl, ◌⊎◌, inl, inr, Bool-cases, List, [], ◌∷◌, Option, some, length, get_or,
  get_elem?-eq-get_or, codes, arith,
}
use prosody.Base.Lua.{c_string, eq_bytes, option_index, Outcome, ret, raise}
use prosody.Pposix.Syslog.{
  Facility, auth, authpriv, cron, daemon, ftp, kern, local0, local1, local2, local3, local4, local5,
  local6, local7, lpr, mail, news, syslog, user, uucp, facility_strings, facility_constants,
  given_or, facility_of,
}

-- What `luaL_checkoption` gives is an index of the list.
pub option_index_bound :
    (names : List (List ℕ)) (i : ℕ) (s : List ℕ)
    → (option_index names i s ≡ raise)
      ⊎ ((j : ℕ) × (option_index names i s ≡ ret j) × (j < i + length names))
option_index_bound [] i s = inl refl
option_index_bound (name ∷ rest) i s = elim (Bool-cases (eq_bytes name s)) [
  | inl e ↦ inr (i, rw e refl, omega arith)
  | inr e ↦ elim (option_index_bound rest (i + 1) s) [
    | inl e' ↦ inl (rw (e, e') refl)
    | inr (j, e', h) ↦ inr (j, rw (e, e') refl, omega (arith, h))
  ]
]

-- Each index of a name has a facility.
pub facility_of-cases :
    (arg : Option (List ℕ))
    → (facility_of arg ≡ raise) ⊎ ((facility : Facility) × (facility_of arg ≡ ret facility))
unfolding facility_of
facility_of-cases arg =
    let name = c_string (given_or arg (codes "daemon")) in
    elim (option_index_bound facility_strings 0 name) [
      | inl e ↦ inl (rw e refl)
      | inr (j, e, h) ↦
          let found = get_elem?-eq-get_or facility_constants j auth (omega (arith, h)) in
          inr (get_or facility_constants j auth, rw (e, found) refl)
    ]

-- The name of a facility, as in syslog(3).
abbrev pub name_of : Facility → List ℕ
name_of auth = codes "auth"
name_of authpriv = codes "authpriv"
name_of cron = codes "cron"
name_of daemon = codes "daemon"
name_of ftp = codes "ftp"
name_of kern = codes "kern"
name_of local0 = codes "local0"
name_of local1 = codes "local1"
name_of local2 = codes "local2"
name_of local3 = codes "local3"
name_of local4 = codes "local4"
name_of local5 = codes "local5"
name_of local6 = codes "local6"
name_of local7 = codes "local7"
name_of lpr = codes "lpr"
name_of mail = codes "mail"
name_of news = codes "news"
name_of syslog = codes "syslog"
name_of user = codes "user"
name_of uucp = codes "uucp"

-- The facility that is opened for it.
abbrev pub heard_as : Facility → Outcome Facility
heard_as auth = ret auth
heard_as authpriv = ret authpriv
heard_as cron = ret cron
heard_as daemon = ret daemon
heard_as ftp = ret ftp
heard_as kern = ret kern
heard_as local0 = ret local0
heard_as local1 = ret local1
heard_as local2 = ret local2
heard_as local3 = ret local3
heard_as local4 = ret local4
heard_as local5 = ret local5
heard_as local6 = ret local6
heard_as local7 = ret local7
heard_as lpr = ret lpr
heard_as mail = ret mail
heard_as news = raise
heard_as syslog = ret news
heard_as user = ret syslog
heard_as uucp = ret user

-- Each facility is opened by its name, but for those behind "mail": "news" is refused, "syslog" opens
-- news, "user" opens syslog, and "uucp" opens user.
pub facility_of_name :
    (facility : Facility) → facility_of (some (name_of facility)) ≡ heard_as facility
unfolding facility_of c_string
facility_of_name auth = refl
facility_of_name authpriv = refl
facility_of_name cron = refl
facility_of_name daemon = refl
facility_of_name ftp = refl
facility_of_name kern = refl
facility_of_name local0 = refl
facility_of_name local1 = refl
facility_of_name local2 = refl
facility_of_name local3 = refl
facility_of_name local4 = refl
facility_of_name local5 = refl
facility_of_name local6 = refl
facility_of_name local7 = refl
facility_of_name lpr = refl
facility_of_name mail = refl
facility_of_name news = refl
facility_of_name syslog = refl
facility_of_name user = refl
facility_of_name uucp = refl
