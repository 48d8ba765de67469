-- ===== src/Ring/Write.antt =====
-- `rb_write` refines the queue's `write`.
use mathlib.Core.List.{append-nil, append_assoc}
use native.Mathlib.Nat.{mod-eq_of_lt, mod-lt, mod-add-mod}
use prosody.Base.{
  ℕ, dec_lt, ◌+◌, ◌%◌, ◌^◌, ◌≤◌, ◌<◌, ◌≡◌, refl, List, [], ◌∷◌, ◌++◌, length, get_or, set, arith,
  ap, ◌∙◌, sym, tabulate-append, tabulate_ext, length-set, get_or-set_self, get_or-set_ne,
}
use prosody.Base.Word.{size_mod}
use prosody.Base.Lua.{Outcome, ret}
use prosody.Ring.{Ring, modpos, writechar, write_loop, write}
use prosody.Ring.Queue
use prosody.Ring.Inv.{
  Refines, length-contents, IsValid, byte_at, contents, wrap_index_ne, mod_shift,
}

-- Between two rounds of the loop the write position may have passed the end of the storage.
record IsOpen (b : Ring) : Type 0 where
  pos_alen : 0 < b.alen
  small : b.alen < 2 ^ 63
  storage : length b.buffer ≡ b.alen
  rpos_in : b.rpos < b.alen
  blen_in : b.blen ≤ b.alen
  ends : b.wpos % b.alen ≡ (b.rpos + b.blen) % b.alen

IsValid-IsOpen : {b : Ring} → IsValid b → IsOpen b
IsValid-IsOpen v = record {
  pos_alen = v.pos_alen;
  small = v.small;
  storage = v.storage;
  rpos_in = v.rpos_in;
  blen_in = v.blen_in;
  ends = mod-eq_of_lt v.wpos_in ∙ v.ends;
}

-- The ring after one more byte.
abbrev stored : Ring → ℕ → Ring
stored b c = record b {
  wpos = b.wpos + 1;
  blen = b.blen + 1;
  buffer = set b.buffer (b.wpos % b.alen) c;
}

module _ {b : Ring} (o : IsOpen b) (c : ℕ) (room : b.blen < b.alen) where
  writechar-stored : b.wpos + 1 < size_mod → writechar b c ≡ ret (stored b c)
  unfolding writechar
  writechar-stored w = ground (arith, mod-lt b.wpos o.pos_alen, o.storage)

  stored-IsOpen : IsOpen (stored b c)
  stored-IsOpen = record {
    pos_alen = o.pos_alen;
    small = o.small;
    storage = length-set b.buffer (b.wpos % b.alen) c ∙ o.storage;
    rpos_in = o.rpos_in;
    blen_in = omega arith;
    ends =
        sym (mod-add-mod b.wpos b.alen 1)
        ∙ ap (λ k. (k + 1) % b.alen) o.ends
        ∙ mod_shift b.rpos b.blen 1 b.alen;
  }

  old_byte : (i : ℕ) → i < b.blen → byte_at (stored b c) i ≡ byte_at b i
  old_byte i h =
      get_or-set_ne b.buffer (b.wpos % b.alen) ((b.rpos + i) % b.alen) c 0
        (rw o.ends (wrap_index_ne b.rpos i b.blen b.alen o.rpos_in h room))

  new_byte : byte_at (stored b c) (b.blen + 0) ≡ c
  new_byte =
      ap (λ k. get_or (set b.buffer (b.wpos % b.alen) c) k 0) place
      ∙ get_or-set_self b.buffer (b.wpos % b.alen) c 0 (rw o.storage (mod-lt b.wpos o.pos_alen))
    where
      place : (b.rpos + (b.blen + 0)) % b.alen ≡ b.wpos % b.alen
      place = let e : b.rpos + (b.blen + 0) ≡ b.rpos + b.blen = omega arith in rw e (sym o.ends)

  contents-stored : contents (stored b c) ≡ contents b ++ (c ∷ [])
  contents-stored =
      tabulate-append b.blen 1 (byte_at (stored b c))
      ∙ ap (λ xs. xs ++ (byte_at (stored b c) (b.blen + 0) ∷ [])) (tabulate_ext _ _ _ old_byte)
      ∙ ap (λ x. contents b ++ (x ∷ [])) new_byte

-- What the loop leaves, started at `b` with the bytes `s` to write.
record Wrote (b : Ring) (s : List ℕ) (result : Outcome Ring) : Type 0 where
  after : Ring
  returns : result ≡ ret after
  is_open : IsOpen after
  bytes : contents after ≡ contents b ++ s
  same_alen : after.alen ≡ b.alen
  same_rpos : after.rpos ≡ b.rpos

write_loop-Wrote :
    (s : List ℕ) {b : Ring}
    → IsOpen b
    → b.blen + length s ≤ b.alen
    → b.wpos + length s < size_mod
    → Wrote b s (write_loop b s)
unfolding write_loop
write_loop-Wrote [] {b} o room below = record {
  after = b;
  returns = refl;
  is_open = o;
  bytes = sym (append-nil _);
  same_alen = refl;
  same_rpos = refl;
}
write_loop-Wrote (c ∷ s) {b} o room below =
    let rest = write_loop-Wrote s (stored-IsOpen o c (omega arith)) (omega arith) (omega arith) in
    record {
      after = rest.after;
      returns = rw (writechar-stored o c (omega arith) (omega arith)) rest.returns;
      is_open = rest.is_open;
      bytes =
          rest.bytes
          ∙ ap (λ xs. xs ++ s) (contents-stored o c (omega arith))
          ∙ append_assoc (contents b) (c ∷ []) s;
      same_alen = rest.same_alen;
      same_rpos = rest.same_rpos;
    }

-- Reducing the positions when the loop is done changes no byte held.
module _ {b : Ring} (o : IsOpen b) where
  modpos-IsValid : IsValid (modpos b)
  unfolding modpos
  modpos-IsValid = record {
    pos_alen = o.pos_alen;
    small = o.small;
    storage = o.storage;
    rpos_in = mod-lt b.rpos o.pos_alen;
    wpos_in = mod-lt b.wpos o.pos_alen;
    blen_in = o.blen_in;
    ends = o.ends ∙ sym (mod-add-mod b.rpos b.alen b.blen);
  }

  contents-modpos : contents (modpos b) ≡ contents b
  unfolding modpos
  contents-modpos =
      tabulate_ext b.blen _ _ (λ i h. ap (λ k. get_or b.buffer k 0) (mod-add-mod b.rpos b.alen i))

  alen-modpos : (modpos b).alen ≡ b.alen
  unfolding modpos
  alen-modpos = refl

-- The two outcomes of `rb_write`.
module _ {b : Ring} (s : List ℕ) (v : IsValid b) (short : length s < 2 ^ 63) where
  write_refused :
      b.alen < length s + b.blen → Refines b (Queue.write b.alen (contents b) s) (write b s)
  unfolding write Queue.write
  write_refused over = record {
    after = b;
    returns = ground (arith, length-contents b, v.blen_in, v.small);
    valid = v;
    bytes = ground (arith, length-contents b);
    same_alen = refl;
  }

  write_stored :
      length s + b.blen ≤ b.alen → Refines b (Queue.write b.alen (contents b) s) (write b s)
  unfolding write Queue.write
  write_stored room =
      let w = write_loop-Wrote s (IsValid-IsOpen v) (omega arith) (omega arith) in
      record {
        after = modpos w.after;
        returns = ground (arith, length-contents b, w.returns, v.blen_in, v.small);
        valid = modpos-IsValid w.is_open;
        bytes = ground (arith, length-contents b, contents-modpos w.is_open, w.bytes);
        same_alen = alen-modpos w.is_open ∙ w.same_alen;
      }

-- `rb_write` stores all of `s` behind the bytes held, or stores nothing and returns nil where they
-- do not fit; it never writes outside the storage.
pub write-Refines :
    {b : Ring} (s : List ℕ)
    → IsValid b
    → length s < 2 ^ 63
    → Refines b (Queue.write b.alen (contents b) s) (write b s)
write-Refines {b} s v short = elim (dec_lt b.alen (length s + b.blen)) [
  | yes over ↦ write_refused s v short over
  | no room ↦ write_stored s v short (omega arith)
]
