-- ===== src/Base/Lua.antt =====
-- What a C function of a Lua module gives back to its caller.
use Prim.Native.Nat.{ℕ, ◌+◌}
use mathlib.Core.Bool.{Bool, true, false, ◌&&◌}
use mathlib.Core.List.{List, [], ◌∷◌}
use mathlib.Core.Path.{◌≡◌, refl}
use native.Mathlib.Omega.{arith}
use prosody.Base.Tests.{◌==◌, if◌then◌else◌}
use prosody.Base.Int.{ℤ}

-- The Lua values that the functions push. A string is its bytes.
pub data Value : Type 0 where
  nil : Value
  boolean : Bool → Value
  integer : ℤ → Value
  string : List ℕ → Value

-- `ret` is a return with its results, `raise` an error raised by `luaL_argcheck` or `luaL_error`,
-- and `fault` a step that C leaves undefined, such as an access out of an array's range.
pub data Outcome {ℓ} (A : Type ℓ) : Type ℓ where
  ret : A → Outcome A
  raise fault : Outcome A

infixl 5 ◌>>=◌
abbrev pub ◌>>=◌ {ℓ κ} : {A : Type ℓ} {B : Type κ} → Outcome A → (A → Outcome B) → Outcome B
ret a >>= f = f a
raise >>= f = raise
fault >>= f = fault

abbrev pub eq_bytes : List ℕ → List ℕ → Bool
eq_bytes [] [] = true
eq_bytes [] (y ∷ ys) = false
eq_bytes (x ∷ xs) [] = false
eq_bytes (x ∷ xs) (y ∷ ys) = (x == y) && eq_bytes xs ys

pub eq_bytes_refl : (s : List ℕ) → eq_bytes s s ≡ true
eq_bytes_refl [] = refl
eq_bytes_refl (x ∷ s) = ground (arith, eq_bytes_refl s)

pub eq_bytes-eq : (s t : List ℕ) → eq_bytes s t ≡ true → s ≡ t
eq_bytes-eq [] [] e = refl
eq_bytes-eq [] (y ∷ t) e = absurd (ground (arith, e))
eq_bytes-eq (x ∷ s) [] e = absurd (ground (arith, e))
eq_bytes-eq (x ∷ s) (y ∷ t) e = ground (arith, e, eq_bytes-eq s t)

-- A Lua string as C reads it, up to its first zero byte.
unfoldable pub c_string : List ℕ → List ℕ
c_string [] = []
c_string (c ∷ rest) = let more = c_string rest in if c == 0 then [] else c ∷ more

-- The index of a string of C among those from index `i` on.
abbrev pub option_index : List (List ℕ) → ℕ → List ℕ → Outcome ℕ
option_index [] i s = raise
option_index (name ∷ rest) i s =
    let more = option_index rest (i + 1) s in if eq_bytes name s then ret i else more

-- `luaL_checkoption` on a string that is given.
abbrev pub check_option : List (List ℕ) → List ℕ → Outcome ℕ
check_option names arg = option_index names 0 (c_string arg)

-- Both results of a test leave the same number.
pub if_held {ℓ κ} :
    {K : Type ℓ} {A : Type κ} (held : K → ℕ) (n : ℕ) (b : Bool) (x y : A × K)
    → held x.1 ≡ n
    → held y.1 ≡ n
    → held ((if b then x else y).1) ≡ n
if_held held n true x y e h = e
if_held held n false x y e h = h
