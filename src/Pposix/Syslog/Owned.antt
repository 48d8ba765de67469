-- ===== src/Pposix/Syslog/Owned.antt =====
-- The block of `syslog_ident`.
use prosody.Base.{
  ℕ, ◌≡◌, refl, ap, ◌∙◌, inl, inr, true, List, [], ◌∷◌, Option, none, some, Option-cases, ◌==◌,
  arith,
}
use prosody.Base.Lua.{c_string, Outcome, ret, raise, fault, ◌>>=◌}
use prosody.Pposix.Syslog.Facilities.{facility_of-cases}
use prosody.Pposix.Syslog.{
  Syslog, Libc, Facility, free, free_ident, with_block, opened, syslog_open, syslog_close,
}

pub data Call : Type 0 where
  open_with : List ℕ → Option (List ℕ) → Call
  close : Call

-- A call of Lua code; one that raises an error changes nothing.
abbrev pub after : Outcome (Facility × Syslog) → Syslog → Outcome Syslog
after (ret done) s = ret done.1
after raise s = ret s
after fault s = fault

-- One block at most is held: the one that `syslog_ident` and openlog(3) point to.
abbrev pub owned : Option ℕ → List ℕ
owned none = []
owned (some p) = p ∷ []

pub record IsOwned (s : Syslog) : Type 0 where
  pub one_block : s.held ≡ owned s.syslog_ident
  pub same_block : s.kept ≡ s.syslog_ident

free_ident-IsOwned : (s : Syslog) → IsOwned s → free_ident s ≡ ret []
unfolding free_ident free
free_ident-IsOwned s h = elim (Option-cases s.syslog_ident) [
  | inl e ↦
      let nothing : s.held ≡ [] = h.one_block ∙ ap owned e in rw (e, free_ident) (ap ret nothing)
  | inr (p, e) ↦
      let one : s.held ≡ p ∷ [] = h.one_block ∙ ap owned e in
      let same : (p == p) ≡ true = ground arith in
      rw (e, free_ident) (rw one (rw (same, free) refl))
]

-- openlog(3) keeps the pointer that it is given, and none for NULL.
abbrev pub KeepsPointer : Libc → Type 0
KeepsPointer libc = (kept ident : Option ℕ) → libc.openlog kept ident ≡ ident

with_block-owned : (o : Option ℕ) → with_block o [] ≡ owned o
with_block-owned none = refl
with_block-owned (some p) = refl

opened-IsOwned :
    (libc : Libc) (kept : Option ℕ) (ident : List ℕ)
    → KeepsPointer libc
    → IsOwned (opened libc kept [] ident)
opened-IsOwned libc kept ident keeps = record {
  one_block = with_block-owned (libc.strdup [] ident);
  same_block = keeps kept _;
}

module _ (libc : Libc) where
  pub call : Call → Syslog → Outcome Syslog
  call (open_with ident facility_name) s = after (syslog_open libc s ident facility_name) s
  call close s = syslog_close s

  pub run : List Call → Syslog → Outcome Syslog
  run [] s = ret s
  run (c ∷ calls) s = call c s >>= λ s'. run calls s'

  call-IsOwned :
      (c : Call) (s : Syslog)
      → KeepsPointer libc
      → IsOwned s
      → (s' : Syslog) × (call c s ≡ ret s') × IsOwned s'
  unfolding call syslog_open syslog_close
  call-IsOwned (open_with ident facility_name) s keeps h = elim (facility_of-cases facility_name) [
    | inl e ↦ (s, rw (e, syslog_open) refl, h)
    | inr (facility, e) ↦ (
      opened libc s.kept [] (c_string ident),
      rw (e, free_ident-IsOwned s h, syslog_open) refl,
      opened-IsOwned libc s.kept (c_string ident) keeps,
    )
  ]
  call-IsOwned close s keeps h = (
    record { syslog_ident = none; kept = none; held = [] },
    rw (free_ident-IsOwned s h, syslog_close) refl,
    record { one_block = refl; same_block = refl },
  )

-- From a state in which the block of `syslog_ident` is the only one held, and the one that
-- openlog(3) keeps, and where openlog(3) keeps the pointer that it is given, and none for NULL, no
-- sequence of calls of syslog_open and syslog_close frees a block that is not held. One block at most
-- is held afterwards: the one that `syslog_ident` points to, which openlog(3) keeps.
pub run-IsOwned :
    (libc : Libc) (calls : List Call) (s : Syslog)
    → KeepsPointer libc
    → IsOwned s
    → (s' : Syslog) × (run libc calls s ≡ ret s') × IsOwned s'
unfolding run
run-IsOwned libc [] s keeps h = (s, refl, h)
run-IsOwned libc (c ∷ calls) s keeps h =
    let called = call-IsOwned libc c s keeps h in
    let more = run-IsOwned libc calls called.0 keeps called.2 in
    (more.0, rw (called.1, run) more.1, more.2)
