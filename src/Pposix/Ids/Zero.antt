-- ===== src/Pposix/Ids/Zero.antt =====
-- What is taken for the id of the superuser.
use prosody.Base.{ℕ, ◌-◌, ◌%◌, ◌^◌, ◌≡◌, refl, List, Option, none, some, arith}
use prosody.Base.Int.{pos, negsuc}
use prosody.Pposix.{Arg, absent, null, other, number, float, text}
use prosody.Pposix.Ids.{System, id_of, setuid, setgid}

-- nil, a boolean, a table and the like, and a number whose low 32 bits are 0.
abbrev pub IsTakenForZero : Arg → Type 0
IsTakenForZero absent = ⊥
IsTakenForZero null = Unit
IsTakenForZero other = Unit
IsTakenForZero (number (pos n)) = n % 2 ^ 32 ≡ 0
IsTakenForZero (number (negsuc n)) = n % 2 ^ 32 ≡ 2 ^ 32 - 1
IsTakenForZero (float n s) = ⊥
IsTakenForZero (text s) = ⊥

id_of-IsTakenForZero :
    (find : List ℕ → Option ℕ) (arg : Arg) → IsTakenForZero arg → id_of find arg ≡ some (pos 0)
unfolding id_of
id_of-IsTakenForZero find null h = refl
id_of-IsTakenForZero find other h = refl
id_of-IsTakenForZero find (number (pos n)) h =
    let low : (n % 2 ^ 64) % 2 ^ 32 ≡ 0 = omega arith in rw low refl
id_of-IsTakenForZero find (number (negsuc n)) h =
    let low : (2 ^ 64 - 1 - n % 2 ^ 64) % 2 ^ 32 ≡ 0 = omega arith in rw low refl
id_of-IsTakenForZero find absent h = absurd h
id_of-IsTakenForZero find (float n s) h = absurd h
id_of-IsTakenForZero find (text s) h = absurd h

-- `setuid` and `setgid` of nil, of a boolean or a table, and of an integer that is a multiple of
-- 2 ^ 32, do what they do of 0.
pub setuid-IsTakenForZero {ℓ} :
    {K : Type ℓ} (system : System K) (k : K) (arg : Arg)
    → IsTakenForZero arg
    → (setuid system k arg ≡ setuid system k (number (pos 0)))
      × (setgid system k arg ≡ setgid system k (number (pos 0)))
unfolding setuid setgid id_of
setuid-IsTakenForZero system k null h = (refl, refl)
setuid-IsTakenForZero system k other h = (refl, refl)
setuid-IsTakenForZero system k (number n) h =
    let zero_id = id_of-IsTakenForZero (λ name. none) (number n) h in
    (rw zero_id refl, rw zero_id refl)
setuid-IsTakenForZero system k absent h = absurd h
setuid-IsTakenForZero system k (float n s) h = absurd h
setuid-IsTakenForZero system k (text s) h = absurd h
