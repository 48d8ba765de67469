-- ===== src/Base64.antt =====
-- util-src/encodings.c: base64.
-- `decode` reads a C string, so it ends at the first NUL or at the one behind the string.
pub mod Digits
pub mod RoundTrip
pub mod Decode
pub mod Refused
mod Tests
use mathlib.Core.Option
use prosody.Base.{
  ℕ, zero, suc, ◌+◌, ◌-◌, ◌*◌, ◌/◌, ◌%◌, ◌^◌, Bool, true, false, ◌||◌, List, [], ◌∷◌, ◌++◌, Option,
  none, some, length, get_or, set, drop, replicate, ltb, ◌==◌, if◌then◌else◌, codes,
}
use prosody.Base.Lua.{Outcome, ret, fault}

abbrev pub code : List ℕ
code = codes "ABCDEFGHIJKLMNOPQRSTUVWXYZabcdefghijklmnopqrstuvwxyz0123456789+/"

-- `s[3 - i] = code[tuple % 64]; tuple /= 64;` for the rounds left.
pub digit_loop : ℕ → ℕ → ℕ → List ℕ → List ℕ
digit_loop zero i tuple s = s
digit_loop (suc left) i tuple s =
    digit_loop left (i + 1) (tuple / 64) (set s (3 - i) (get_or code (tuple % 64) 0))

-- `s[i] = '=';` for the rounds left.
pub pad_loop : ℕ → ℕ → List ℕ → List ℕ
pad_loop zero i s = s
pad_loop (suc left) i s = pad_loop left (i + 1) (set s i b'=')

-- The array starts uninitialised, and each element is written before it is used.
pub base64_encode : ℕ → ℕ → ℕ → ℕ → List ℕ
unfolding digit_loop pad_loop
base64_encode c1 c2 c3 n =
    let tuple = (c3 + 256 * (c2 + 256 * c1)) % 2 ^ 64 in
    pad_loop (4 - (n + 1)) (n + 1) (digit_loop 4 0 tuple (replicate 4 0))

-- The loop over groups of three bytes with `left` groups to go, and the switch on `l % 3`.
pub encode_loop : ℕ → ℕ → List ℕ → List ℕ
encode_loop zero m s =
    if m == 1
    then base64_encode (get_or s 0 0) 0 0 1
    else if m == 2
    then base64_encode (get_or s 0 0) (get_or s 1 0) 0 2
    else []
encode_loop (suc left) m s =
    base64_encode (get_or s 0 0) (get_or s 1 0) (get_or s 2 0) 3 ++ encode_loop left m (drop 3 s)

-- The count of groups is an `int`; a string for which it would be negative is a fault.
pub encode : List ℕ → Outcome (List ℕ)
encode s =
    if ltb (length s / 3) (2 ^ 31) then ret (encode_loop (length s / 3) (length s % 3) s) else fault

-- The switch on `--n` with its fall-through: the bytes written, of which there are `n` afterwards.
pub tuple_bytes : ℕ → ℕ → List ℕ
tuple_bytes tuple zero = []
tuple_bytes tuple (suc zero) = tuple / 2 ^ 16 % 256 ∷ []
tuple_bytes tuple (suc (suc zero)) = tuple / 2 ^ 16 % 256 ∷ tuple / 2 ^ 8 % 256 ∷ []
tuple_bytes tuple (suc (suc (suc n))) =
    tuple / 2 ^ 16 % 256 ∷ tuple / 2 ^ 8 % 256 ∷ tuple % 256 ∷ []

pub base64_decode : ℕ → ℕ → ℕ → ℕ → ℕ → List ℕ
unfolding tuple_bytes
base64_decode c1 c2 c3 c4 n = tuple_bytes ((c4 + 64 * (c3 + 64 * (c2 + 64 * c1))) % 2 ^ 64) (n - 1)

-- `strchr(code, c) - code`
pub index_of : List ℕ → ℕ → Option ℕ
index_of [] c = none
index_of (x ∷ xs) c = if x == c then some 0 else Option.map suc (index_of xs c)

pub is_space : ℕ → Bool
is_space c = c == 10 || c == 13 || c == 9 || c == b' ' || c == 12 || c == 8

-- The digits `t[0], …, t[n - 1]` that wait for their group, and the buffer.
pub record Decoder : Type 0 where
  pub t : List ℕ
  pub out : List ℕ

-- The case of `'='`.
pub pad : Decoder → Decoder
pad d =
    let n = length d.t in
    let t0 = get_or d.t 0 0 in
    let t1 = get_or d.t 1 0 in
    let t2 = get_or d.t 2 0 in
    let more =
      if n == 1
      then base64_decode t0 0 0 0 1
      else if n == 2
      then base64_decode t0 t1 0 0 2
      else if n == 3
      then base64_decode t0 t1 t2 0 3
      else [] in
    record { t = []; out = d.out ++ more }

-- The default case, for the digit `x`.
pub push_digit : Decoder → ℕ → Decoder
push_digit d x =
    let t = d.t ++ (x ∷ []) in
    if length t == 4
    then record {
      t = [];
      out = d.out ++ base64_decode (get_or t 0 0) (get_or t 1 0) (get_or t 2 0) (get_or t 3 0) 4;
    }
    else record { t = t; out = d.out }

-- One round of the loop on a byte that is not NUL; `none` is `return 0`.
pub step : Decoder → ℕ → Option Decoder
step d c =
    if c == b'='
    then some (pad d)
    else if is_space c
    then some d
    else Option.map (push_digit d) (index_of code c)

pub decode_loop : List ℕ → Decoder → Option (List ℕ)
decode_loop [] d = some d.out
decode_loop (c ∷ s) d =
    if c == 0 then some d.out else Option.bind (step d c) (λ d'. decode_loop s d')

pub decode : List ℕ → Option (List ℕ)
decode s = decode_loop s (record { t = []; out = [] })
