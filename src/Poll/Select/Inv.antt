-- ===== src/Poll/Select/Inv.antt =====
-- The sets of util-src/poll.c under every sequence of calls: only what is watched is ever told.
use prosody.Base.{ℕ, ◌≡◌, ◌⊎◌, sym, ap, subst, Bool, true, Option, none, some, arith, inl, inr}
use prosody.Base.Int.{ℤ, pos_part}
use prosody.Base.Lua.{ret}
use prosody.Poll.{Reply}
use prosody.Poll.Select.{
  FdSet, SelectState, Answer, added, removed, put_option, add, set_events, del, told,
}

-- A set has only descriptors of another one.
abbrev pub Within : FdSet → FdSet → Type 0
Within a b = (k : ℕ) → a k ≡ true → b k ≡ true

-- Only watched descriptors are wanted, and only they have an event.
pub record IsValid (s : SelectState) : Type 0 where
  pub reads : Within s.wantread s.all
  pub writes : Within s.wantwrite s.all
  pub readables : Within s.readable s.all
  pub writables : Within s.writable s.all
  pub errors : Within s.err s.all

-- select(2) leaves no descriptor in a set that it was not given in it.
abbrev pub IsSelect : (FdSet → FdSet → FdSet → Answer) → Type 0
IsSelect select =
    (r w e : FdSet)
    → let a = select r w e in Within a.readable r × Within a.writable w × Within a.err e

added-IsValid : {s : SelectState} (n : ℕ) (r w : Bool) → IsValid s → IsValid (added s n r w)
added-IsValid n r w v = record {
  reads = λ k h. ground (arith, v.reads k);
  writes = λ k h. ground (arith, v.writes k);
  readables = λ k h. ground (arith, v.readables k);
  writables = λ k h. ground (arith, v.writables k);
  errors = λ k h. ground (arith, v.errors k);
}

removed-IsValid : {s : SelectState} (n : ℕ) → IsValid s → IsValid (removed s n)
removed-IsValid n v = record {
  reads = λ k h. ground (arith, v.reads k);
  writes = λ k h. ground (arith, v.writes k);
  readables = λ k h. ground (arith, v.readables k);
  writables = λ k h. ground (arith, v.writables k);
  errors = λ k h. ground (arith, v.errors k);
}

pub told-IsValid : {s : SelectState} (n : ℕ) → IsValid s → IsValid (told s n)
told-IsValid n v = record {
  reads = v.reads;
  writes = v.writes;
  readables = λ k h. ground (arith, v.readables k);
  writables = λ k h. ground (arith, v.writables k);
  errors = λ k h. ground (arith, v.errors k);
}

put_option-Within :
    (set all : FdSet) (n : ℕ) (o : Option Bool)
    → Within set all
    → all n ≡ true
    → Within (put_option set n o) all
put_option-Within set all n none v h k p = v k p
put_option-Within set all n (some b) v h k p = ground (arith, v k, ap all)

pub add-IsValid :
    (fd_setsize : ℕ) (s s' : SelectState) (fd : ℤ) (wantread wantwrite : Bool) (r : Reply)
    → IsValid s
    → add fd_setsize s fd wantread wantwrite ≡ ret (r, s')
    → IsValid s'
unfolding add
add-IsValid fd_setsize s s' fd wantread wantwrite r v e =
    let after : (s' ≡ s) ⊎ (s' ≡ added s (pos_part fd) wantread wantwrite) = ground (arith, e) in
    elim after [
      | inl h ↦ subst IsValid (sym h) v
      | inr h ↦ subst IsValid (sym h) (added-IsValid (pos_part fd) wantread wantwrite v)
    ]

pub set_events-IsValid :
    (fd_setsize : ℕ) (s s' : SelectState) (fd : ℤ) (wantread wantwrite : Option Bool) (r : Reply)
    → IsValid s
    → set_events fd_setsize s fd wantread wantwrite ≡ ret (r, s')
    → IsValid s'
unfolding set_events
set_events-IsValid fd_setsize s s' fd wantread wantwrite r v e =
    let n = pos_part fd in
    let after : (s' ≡ s)
        ⊎ ((s.all n ≡ true)
            × (s' ≡ record s {
              wantread = put_option s.wantread n wantread;
              wantwrite = put_option s.wantwrite n wantwrite;
            })) =
      ground (arith, e) in
    elim after [
      | inl h ↦ subst IsValid (sym h) v
      | inr (p, h) ↦ subst IsValid (sym h) (record {
        reads = put_option-Within s.wantread s.all n wantread v.reads p;
        writes = put_option-Within s.wantwrite s.all n wantwrite v.writes p;
        readables = v.readables;
        writables = v.writables;
        errors = v.errors;
      })
    ]

pub del-IsValid :
    (fd_setsize : ℕ) (s s' : SelectState) (fd : ℤ) (r : Reply)
    → IsValid s
    → del fd_setsize s fd ≡ ret (r, s')
    → IsValid s'
unfolding del
del-IsValid fd_setsize s s' fd r v e =
    let after : (s' ≡ s) ⊎ (s' ≡ removed s (pos_part fd)) = ground (arith, e) in
    elim after [
      | inl h ↦ subst IsValid (sym h) v
      | inr h ↦ subst IsValid (sym h) (removed-IsValid (pos_part fd) v)
    ]
