-- ===== src/Prep/Icu.antt =====
-- util-src/encodings.c: the functions over ICU (USE_STRINGPREP_ICU).
pub mod Short
mod Tests
use prosody.Base.{
  ℕ, Bool, true, false, ◌&&◌, ◌||◌, not, List, [], Option, none, some, length, take, ltb, leb, ◌==◌,
  if◌then◌else◌,
}
use prosody.Base.Int.{ℤ, pos, pos_part, ltb_ℤ}
use prosody.Base.Word.{int_of_size}
use prosody.Base.Lua.{Value, nil, string, Outcome, ret, fault, ◌>>=◌}
use prosody.Prep.{Profile}

-- What a call writes, the length that it tells, and `err` behind it.
pub record Written : Type 0 where
  pub units : List ℕ
  pub len : ℤ
  pub err : ℤ

-- ICU. A text is given with its length, a buffer by its capacity; the last argument is `err` before
-- the call. The functions on names also tell `info.errors`.
pub record Icu : Type 0 where
  pub from_utf8 : ℕ → List ℕ → ℤ → ℤ → Written
  pub to_utf8 : ℕ → List ℕ → ℤ → ℤ → Written
  pub prepare : Profile → List ℕ → ℤ → ℕ → ℕ → ℤ → Written
  pub name_to_ascii : List ℕ → ℤ → ℕ → ℤ → ℕ × Written
  pub name_to_unicode : List ℕ → ℤ → ℕ → ℤ → ℕ × Written
  pub skeleton : List ℕ → ℤ → ℕ → ℤ → Written

-- `U_FAILURE(err)`
abbrev pub failure : ℤ → Bool
failure err = ltb_ℤ (pos 0) err

-- A call that writes into `capacity` units, and what follows it.
abbrev pub within : ℕ → Written → Outcome Value → Outcome Value
within capacity w next = if leb (length w.units) capacity then next else fault

-- `flags`, where USPREP_ALLOW_UNASSIGNED is 1 and a second argument may be a boolean.
abbrev pub flags_of : Option Bool → ℕ
flags_of (some true) = 0
flags_of (some false) = 1
flags_of none = 1

-- `lua_pushlstring(L, output, output_len)`
abbrev pub push_output : Written → Outcome Value
push_output out =
    if ltb (length out.units) (pos_part out.len)
    then fault
    else ret (string (take (pos_part out.len) out.units))

module _ (icu : Icu) where
  -- The end of the functions but the last: the text in `dest` is pushed as UTF-8 of less than 1024
  -- bytes.
  pub push_utf8 : Written → Outcome Value
  push_utf8 dest =
      let out = icu.to_utf8 1024 dest.units dest.len dest.err in
      within 1024 out
        (if not (failure out.err) && ltb_ℤ out.len (pos 1024) then push_output out else ret nil)

  -- `icu_stringprep_prep`; the second argument is `none` where it is nil or none is given.
  pub icu_stringprep_prep : Profile → List ℕ → Option Bool → Outcome Value
  icu_stringprep_prep profile input strict =
      let unprepped = icu.from_utf8 1024 input (int_of_size (length input)) (pos 0) in
      let prepped =
        icu.prepare profile unprepped.units unprepped.len 1024 (flags_of strict) unprepped.err in
      if leb 1024 (length input)
      then ret nil
      else within 1024 unprepped (
          if failure unprepped.err
          then ret nil
          else within 1024 prepped (if failure prepped.err then ret nil else push_utf8 prepped))

  -- The part from the result of a function on names on; `dest` has 1024 units.
  pub push_name : ℕ × Written → Outcome Value
  push_name done =
      within 1024 done.1
        (if failure done.1.err || not (done.0 == 0) then ret nil else push_utf8 done.1)

  -- `Lidna_to_ascii`
  pub to_ascii : List ℕ → Outcome Value
  to_ascii s =
      let ustr = icu.from_utf8 1024 s (int_of_size (length s)) (pos 0) in
      within 1024 ustr (
        if failure ustr.err
        then ret nil
        else push_name (icu.name_to_ascii ustr.units ustr.len 256 ustr.err))

  -- `Lidna_to_unicode`
  pub to_unicode : List ℕ → Outcome Value
  to_unicode s =
      let ustr = icu.from_utf8 1024 s (int_of_size (length s)) (pos 0) in
      within 1024 ustr (
        if failure ustr.err
        then ret nil
        else push_name (icu.name_to_unicode ustr.units ustr.len 1024 ustr.err))

  -- `Lskeleton`, which does not compare the length at its end.
  pub skeleton : List ℕ → Outcome Value
  skeleton s =
      let ustr = icu.from_utf8 1024 s (int_of_size (length s)) (pos 0) in
      let dest = icu.skeleton ustr.units ustr.len 1024 ustr.err in
      let out = icu.to_utf8 1024 dest.units dest.len dest.err in
      within 1024 ustr (
        if failure ustr.err
        then ret nil
        else within 1024 dest (
            if failure dest.err
            then ret nil
            else within 1024 out (if not (failure out.err) then push_output out else ret nil)))
