-- ===== src/Prep/Libidn.antt =====
-- util-src/encodings.c: the functions over libidn.
pub mod Checked
mod Tests
use mathlib.Core.Option
use prosody.Base.{
  ℕ, ◌+◌, Bool, true, false, ◌||◌, not, List, [], Option, none, some, length, ltb, leb, ◌==◌,
  if◌then◌else◌,
}
use prosody.Base.Lua.{c_string, Value, nil, string, Outcome, ret, fault, ◌>>=◌}
use prosody.Utf8.{check_utf8}
use prosody.Prep.{Profile}

-- libidn. `none` is a result other than STRINGPREP_OK or IDNA_SUCCESS; `stringprep` is given the size
-- of the buffer and its contents up to the NUL, and gives what it leaves there. The flags are Booleans.
pub record Libidn : Type 0 where
  pub stringprep : List ℕ → ℕ → Bool → Profile → Option (List ℕ)
  pub idna_to_ascii : List ℕ → Option (List ℕ)
  pub idna_to_unicode : List ℕ → Option (List ℕ)

-- `strcpy` into 1024 bytes.
abbrev pub strcpy : List ℕ → Outcome (List ℕ)
strcpy s = if ltb (length (c_string s)) 1024 then ret (c_string s) else fault

-- `lua_pushstring` of a result, or nil.
abbrev pub push_result : Option (List ℕ) → Value
push_result none = nil
push_result (some text) = string (c_string text)

-- Whether `check_utf8` gave NULL, or the string has a NUL before its end.
abbrev pub is_broken : Bool → List ℕ → Bool
is_broken valid s = not valid || not (length s == length (c_string s))

-- The second argument as a flag; `none` where it is nil or none is given.
abbrev pub is_strict : Option Bool → Bool
is_strict none = false
is_strict (some strict) = strict

module _ (libidn : Libidn) where
  -- `stringprep_prep` behind the check of the string.
  pub prep_checked : Profile → List ℕ → Option Bool → Bool → Outcome Value
  prep_checked profile s strict valid =
      if is_broken valid s || leb 1024 (length s)
      then ret nil
      else (strcpy s >>= λ text.
          ret (push_result (libidn.stringprep text 1024 (is_strict strict) profile)))

  -- `stringprep_prep`; `none` means that the fuel of `check_utf8` ran out.
  pub stringprep_prep : Profile → List ℕ → Option Bool → Option (Outcome Value)
  stringprep_prep profile s strict =
      Option.map (λ o. o >>= prep_checked profile s strict) (check_utf8 s)

  -- `Lidna_to_ascii`
  pub to_ascii : List ℕ → Option (Outcome Value)
  to_ascii s =
      Option.map
        (λ o. o >>= λ valid.
          ret (if is_broken valid s then nil else push_result (libidn.idna_to_ascii (c_string s))))
        (check_utf8 s)

  -- `Lidna_to_unicode`, which does not check the string.
  pub to_unicode : List ℕ → Value
  to_unicode s = push_result (libidn.idna_to_unicode (c_string s))
