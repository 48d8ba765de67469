-- ===== src/Table.antt =====
-- util-src/table.c: `util.table`. A table is what its integer keys hold; metamethods are not called
-- (`lua_rawgeti`, `lua_rawseti`). A `lua_Integer` is an integer of 64 bits, and a result that leaves
-- that range is a fault.
pub mod Keys
pub mod Move
pub mod Pack
mod Tests
use prosody.Base.{
  ℕ, zero, suc, ◌+◌, ◌-◌, ◌^◌, Bool, true, false, ◌||◌, ◌&&◌, not, List, [], ◌∷◌, Option, none,
  some, length, get_elem?, if◌then◌else◌,
}
use prosody.Base.Int.{ℤ, pos, negsuc, pos_part, ◌+ℤ◌, ◌-ℤ◌, ltb_ℤ, leb_ℤ, eq_ℤ}
use prosody.Base.Lua.{Outcome, ret, raise, fault, ◌>>=◌}

-- What is at each integer key; `A` has nil too.
abbrev pub LuaTable {ℓ} : Type ℓ → Type ℓ
LuaTable A = ℤ → A

abbrev pub max_integer : ℤ
max_integer = pos (2 ^ 63 - 1)

abbrev pub min_integer : ℤ
min_integer = negsuc (2 ^ 63 - 1)

-- Whether an integer is a `lua_Integer`.
abbrev pub is_integer : ℤ → Bool
is_integer x = leb_ℤ min_integer x && leb_ℤ x max_integer

-- A result of signed arithmetic.
abbrev pub checked : ℤ → Outcome ℤ
checked x = if is_integer x then ret x else fault

module _ {ℓ} {A : Type ℓ} where
  abbrev pub rawset : LuaTable A → ℤ → A → LuaTable A
  rawset m k v = λ j. if eq_ℤ k j then v else m j

  -- The `for` of `Lpack` downwards from `arg`, which takes the values off the stack: the value at
  -- `arg` is stored at key `arg`.
  pub pack_loop : ℕ → List A → A → LuaTable A → LuaTable A
  pack_loop zero args nil m = m
  pack_loop (suc arg) args nil m =
      pack_loop arg args nil
        (rawset m (pos (suc arg)) (elim (get_elem? args arg) [ none ↦ nil | some v ↦ v ]))

  -- `Lpack`: the table and its field `n`.
  pub pack : List A → A → LuaTable A × ℕ
  pack args nil = (pack_loop (length args) args nil (λ j. nil), length args)

-- The destination: the source, where there is no fifth argument, or that argument, with what
-- `lua_compare` makes of the two and whether they are one table.
pub data Target : Type 0 where
  source : Target
  fifth : Bool → Bool → Target

-- `tt != 1 && !lua_compare(L, 1, tt, LUA_OPEQ)`
abbrev pub differs : Target → Bool
differs source = false
differs (fifth equal shared) = not equal

abbrev pub is_shared : Target → Bool
is_shared source = true
is_shared (fifth equal shared) = shared

-- The two tables. Where they are one, `dst` is not used.
pub record Tables {ℓ} (A : Type ℓ) : Type ℓ where
  pub src : LuaTable A
  pub dst : LuaTable A

module _ {ℓ} {A : Type ℓ} where
  -- `lua_rawseti(L, tt, k)`
  abbrev pub store : Bool → Tables A → ℤ → A → Tables A
  store true m k v = record m { src = rawset m.src k v }
  store false m k v = record m { dst = rawset m.dst k v }

  -- The table that the target is.
  abbrev pub target_of : Bool → Tables A → LuaTable A
  target_of true m = m.src
  target_of false m = m.dst

  -- The body of both loops, `a1[t + i] = a1[f + i]`.
  pub copy : Bool → Tables A → ℤ → ℤ → ℤ → Outcome (Tables A)
  copy shared m f t i =
      checked (f +ℤ i) >>= λ from. checked (t +ℤ i) >>= λ to. ret (store shared m to (m.src from))

  -- `for (i = 0; i < n; i++)`, from `i` on with `left` rounds to go.
  pub up_loop : Bool → ℕ → Tables A → ℤ → ℤ → ℕ → Outcome (Tables A)
  up_loop shared zero m f t i = ret m
  up_loop shared (suc left) m f t i =
      copy shared m f t (pos i) >>= λ m'. up_loop shared left m' f t (i + 1)

  -- `for (i = n - 1; i >= 0; i--)`, over the rounds below `left`.
  pub down_loop : Bool → ℕ → Tables A → ℤ → ℤ → Outcome (Tables A)
  down_loop shared zero m f t = ret m
  down_loop shared (suc i) m f t = copy shared m f t (pos i) >>= λ m'. down_loop shared i m' f t

  -- `Lmove`
  pub move : Target → Tables A → ℤ → ℤ → ℤ → Outcome (Tables A)
  move tt m f e t =
      if leb_ℤ f e
      then (if ltb_ℤ (pos 0) f || ltb_ℤ e (max_integer +ℤ f)
          then (checked (e -ℤ f) >>= λ d. checked (d +ℤ pos 1) >>= λ n.
              if leb_ℤ t (max_integer -ℤ n +ℤ pos 1)
              then (if ltb_ℤ e t || leb_ℤ t f || differs tt
                  then up_loop (is_shared tt) (pos_part n) m f t 0
                  else down_loop (is_shared tt) (pos_part n) m f t)
              else raise)
          else raise)
      else ret m
