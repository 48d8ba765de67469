-- ===== src/Pposix/Append/Tests.antt =====
-- A file on a disk with room for five bytes, and the theorem at it.
use mathlib.Core.List.{append-nil}
use prosody.Base.{
  ℕ, zero, suc, ◌+◌, ◌-◌, ◌≡◌, refl, sym, ap, true, false, List, [], ◌∷◌, ◌++◌, length, take, arith,
  leb, if◌then◌else◌,
}
use prosody.Base.Int.{ℤ, pos, negsuc}
use prosody.Base.Lua.{boolean, ret}
use prosody.Pposix.{failure}
use prosody.Pposix.Append.{Stdio, is_zero, atomic_append, write_out, cut_back}
use prosody.Pposix.Append.Atomic.{AtEnd, Appends, Ended, atomic_append-Ended}

-- What is stored, and what waits to be written.
pub record Small : Type 0 where
  pub stored : List ℕ
  pub pending : List ℕ

-- As much of the data as there is room for.
abbrev fitting : Small → List ℕ
fitting f = take (5 - length f.stored) f.pending

abbrev store : Small → Small
store f = record { stored = f.stored ++ fitting f; pending = [] }

abbrev small : Stdio Small
small = record {
  ftell = λ f. pos (length f.stored);
  fallocate = λ f keep offset len. (negsuc 0, pos 95, f);
  fwrite = λ f bytes. (length bytes, record f { pending = bytes });
  fflush = λ f.
      (if leb (length f.stored + length f.pending) 5 then pos 0 else negsuc 0, pos 28, store f);
  ferror = λ f. pos 1;
  fseek = λ f offset. record f { pending = [] };
  ftruncate = λ f offset. cut f offset;
  strerror = λ err. [];
}
  where
    cut : Small → ℤ → ℤ × Small
    cut f (pos n) = (pos 0, record f { stored = take n f.stored })
    cut f (negsuc n) = (negsuc 0, f)

abbrev content : Small → List ℕ
content f = f.stored

take-le : (n : ℕ) (xs : List ℕ) → leb (length xs) n ≡ true → take n xs ≡ xs
take-le zero [] h = refl
take-le zero (x ∷ xs) h = absurd (ground (arith, h))
take-le (suc n) [] h = refl
take-le (suc n) (x ∷ xs) h =
    let fits : leb (length xs) n ≡ true = ground (arith, h) in ap (λ r. x ∷ r) (take-le n xs fits)

cut_or_same :
    (f : Small) (offset : ℤ)
    → is_zero (small.ftruncate f offset).0 ≡ false
    → content (small.ftruncate f offset).1 ≡ content f
cut_or_same f (pos n) h = absurd (ground (arith, h))
cut_or_same f (negsuc n) h = refl

small-Appends : Appends small content
small-Appends = record {
  reserves = λ f offset len e. (refl, refl);
  writes = λ f bytes e. ([], sym (append-nil (content f)));
  flushes = λ f bytes e. (take (5 - length f.stored) bytes, refl);
  writes_all = λ f bytes e taken flushed.
      (let fits : leb (length bytes) (5 - length f.stored) ≡ true = ground (arith, flushed) in
        ap (λ s. f.stored ++ s) (take-le (5 - length f.stored) bytes fits));
  cuts = λ f n e. refl;
  fails = cut_or_same;
}

abbrev three : Small
three = record { stored = 1 ∷ 2 ∷ 3 ∷ []; pending = [] }

at_end : AtEnd small content three
at_end = refl

atomic_append-Ended_example :
    Ended small content three (4 ∷ 5 ∷ 6 ∷ []) (atomic_append small three (4 ∷ 5 ∷ 6 ∷ []))
atomic_append-Ended_example =
    atomic_append-Ended small content small-Appends three (4 ∷ 5 ∷ 6 ∷ []) at_end

appended :
    atomic_append small three (4 ∷ 5 ∷ [])
    ≡ (ret (boolean true ∷ []), record { stored = 1 ∷ 2 ∷ 3 ∷ 4 ∷ 5 ∷ []; pending = [] })
unfolding atomic_append write_out
appended = refl

too_long : atomic_append small three (4 ∷ 5 ∷ 6 ∷ []) ≡ (ret (failure (λ err. []) (pos 28)), three)
unfolding atomic_append write_out cut_back
too_long = refl
