-- ===== src/Ring/Inv.antt =====
-- The invariant of a ring between two calls, and the bytes that it holds.
use native.Mathlib.Nat.{mod-eq_of_lt, mod-eq-sub-mod, mod-lt, mod-add-mod}
use prosody.Base.{
  ℕ, ◌+◌, ◌-◌, ◌%◌, ◌^◌, ◌≤◌, ◌<◌, ◌≡◌, refl, ◌≢◌, List, length, get_or, tabulate, arith,
  if◌then◌else◌, ltb, length-tabulate, dec_lt, ap, ◌∙◌, sym, drop, drop-tabulate, tabulate_cong,
}
use prosody.Base.Int.{pos}
use prosody.Base.Word.{add_size}
use prosody.Base.Lua.{Value, Outcome, ret}
use prosody.Ring.{Ring, new, modpos, advance}

-- `rb_new` takes a `lua_Integer` for the size, so an allocation is below 2 ^ 63.
pub record IsValid (b : Ring) : Type 0 where
  pub pos_alen : 0 < b.alen
  pub small : b.alen < 2 ^ 63
  pub storage : length b.buffer ≡ b.alen
  pub rpos_in : b.rpos < b.alen
  pub wpos_in : b.wpos < b.alen
  pub blen_in : b.blen ≤ b.alen
  pub ends : b.wpos ≡ (b.rpos + b.blen) % b.alen

-- The byte at offset `i` from the read position.
abbrev pub byte_at : Ring → ℕ → ℕ
byte_at b i = get_or b.buffer ((b.rpos + i) % b.alen) 0

-- The bytes held, oldest first.
abbrev pub contents : Ring → List ℕ
contents b = tabulate b.blen (byte_at b)

pub length-contents : (b : Ring) → length (contents b) ≡ b.blen
length-contents b = length-tabulate b.blen (byte_at b)

-- An index at most once round the ring.
pub wrap_index :
    (r i a : ℕ) → r < a → i ≤ a → (r + i) % a ≡ (if ltb (r + i) a then r + i else r + i - a)
wrap_index r i a h k = elim (dec_lt (r + i) a) [
  | yes p ↦ ground (arith, mod-eq_of_lt p)
  | no p ↦ ground (
    arith,
    mod-eq-sub-mod {n = r + i} {m = a} (omega arith),
    mod-eq_of_lt {n = r + i - a} {m = a} (omega arith),
  )
]

-- Two offsets less than once round apart are two places.
pub wrap_index_ne : (r i j a : ℕ) → r < a → i < j → j < a → (r + j) % a ≢ (r + i) % a
wrap_index_ne r i j a h p q =
    ground (arith, wrap_index r i a h (omega arith), wrap_index r j a h (omega arith))

-- Going on from a reduced position.
pub mod_shift : (r n i a : ℕ) → ((r + n) % a + i) % a ≡ (r + (n + i)) % a
mod_shift r n i a = mod-add-mod (r + n) a i ∙ ap (λ k. k % a) (omega arith)

pub new-IsValid :
    (n : ℕ) (storage : List ℕ) {b : Ring}
    → n < 2 ^ 63
    → length storage ≡ n
    → new (pos n) storage ≡ ret b
    → IsValid b × (b.alen ≡ n) × (b.blen ≡ 0)
unfolding new
new-IsValid n storage h l e = ground arith

module _ {b : Ring} (v : IsValid b) (r : ℕ) (fits : r ≤ b.blen) where
  blen-advance : (advance b r).blen ≡ b.blen - r
  unfolding advance modpos
  blen-advance = omega arith

  rpos-advance : (advance b r).rpos ≡ (b.rpos + r) % b.alen
  unfolding advance modpos
  rpos-advance = let e : add_size b.rpos r ≡ b.rpos + r = omega arith in ap (λ k. k % b.alen) e

  ends-advance : (advance b r).wpos ≡ ((advance b r).rpos + (advance b r).blen) % b.alen
  unfolding advance modpos
  ends-advance =
      rw (rpos-advance, blen-advance)
        (mod-eq_of_lt v.wpos_in
          ∙ v.ends
          ∙ ap (λ k. (b.rpos + k) % b.alen) (omega arith)
          ∙ sym (mod_shift b.rpos r (b.blen - r) b.alen))

  pub advance-IsValid : IsValid (advance b r)
  unfolding advance modpos
  advance-IsValid = record {
    pos_alen = v.pos_alen;
    small = v.small;
    storage = v.storage;
    rpos_in = mod-lt _ v.pos_alen;
    wpos_in = mod-lt _ v.pos_alen;
    blen_in = omega (arith, blen-advance);
    ends = ends-advance;
  }

  -- Advancing forgets the oldest bytes.
  pub contents-advance : contents (advance b r) ≡ drop r (contents b)
  unfolding advance modpos
  contents-advance =
      tabulate_cong _ _ _ _ blen-advance (λ i h.
        ap (λ k. get_or b.buffer k 0)
          (ap (λ k. (k + i) % b.alen) rpos-advance ∙ mod_shift b.rpos r i b.alen))
      ∙ sym (drop-tabulate r b.blen (byte_at b))

alen-advance : (b : Ring) (r : ℕ) → (advance b r).alen ≡ b.alen
unfolding advance modpos
alen-advance b r = refl

-- `result` is a return of what `spec` returns, with a valid ring that holds what `spec` holds.
pub record Refines (b : Ring) (spec : Value × List ℕ) (result : Outcome (Value × Ring))
    : Type 0 where
  pub after : Ring
  pub returns : result ≡ ret (spec.0, after)
  pub valid : IsValid after
  pub bytes : contents after ≡ spec.1
  pub same_alen : after.alen ≡ b.alen

-- A call that leaves the ring alone, and one that advances it.
module _ {b : Ring} (v : IsValid b) (x : Value) {spec : Value × List ℕ}
    {result : Outcome (Value × Ring)} where
  pub Refines-same : spec ≡ (x, contents b) → result ≡ ret (x, b) → Refines b spec result
  Refines-same e r = record { after = b; returns = cc; valid = v; bytes = cc; same_alen = refl }

  pub Refines-advance :
      (r : ℕ)
      → r ≤ b.blen
      → spec ≡ (x, drop r (contents b))
      → result ≡ ret (x, advance b r)
      → Refines b spec result
  Refines-advance r fits e q = record {
    after = advance b r;
    returns = cc;
    valid = advance-IsValid v r fits;
    bytes = contents-advance v r fits ∙ ap (λ t. t.1) (sym e);
    same_alen = alen-advance b r;
  }
