-- ===== src/Pposix/Files/Flags.antt =====
-- A flag of `lc_pipe` that has no name in the array.
use Prim.Native.Nat.{bit_or}
use prosody.Base.{ℕ, zero, suc, ◌+◌, ◌≡◌, ◌≢◌, refl, false, List, [], ◌∷◌, ◌++◌, codes, arith}
use prosody.Base.Lua.{c_string, eq_bytes, eq_bytes-eq, Outcome, fault, ◌>>=◌}
use prosody.Pposix.Syslog.{at_index}
use prosody.Pposix.Files.{
  System, unterminated_index, pipe_flag_names, pipe_flag_values, flags_loop, pipe,
}

-- What stands for no flag.
abbrev pub IsUnknown : List ℕ → Type 0
IsUnknown arg =
    (c_string arg ≢ codes "cloexec")
    × (c_string arg ≢ codes "direct")
    × (c_string arg ≢ codes "nonblock")

eq_bytes-false : (s t : List ℕ) → t ≢ s → eq_bytes s t ≡ false
eq_bytes-false s t h = ground (arith, h, eq_bytes-eq s t)

unterminated_index-IsUnknown :
    (arg : List ℕ) → IsUnknown arg → unterminated_index pipe_flag_names 0 (c_string arg) ≡ fault
unterminated_index-IsUnknown arg h =
    let a : eq_bytes (codes "cloexec") (c_string arg) ≡ false =
      eq_bytes-false (codes "cloexec") (c_string arg) h.0 in
    let b : eq_bytes (codes "direct") (c_string arg) ≡ false =
      eq_bytes-false (codes "direct") (c_string arg) h.1 in
    let c : eq_bytes (codes "nonblock") (c_string arg) ≡ false =
      eq_bytes-false (codes "nonblock") (c_string arg) h.2 in
    rw (a, b, c) refl

-- A step that faults whatever it is given makes the whole fault, behind a search or a look-up.
unterminated_index-bind {ℓ} :
    {B : Type ℓ} (names : List (List ℕ)) (i : ℕ) (s : List ℕ) (f : ℕ → Outcome B)
    → ((n : ℕ) → f n ≡ fault)
    → (unterminated_index names i s >>= f) ≡ fault
unterminated_index-bind [] i s f h = refl
unterminated_index-bind (name ∷ rest) i s f h =
    let rest-h = unterminated_index-bind rest (i + 1) s f h in ground (arith, h i, rest-h)

at_index-bind {ℓ κ} :
    {A : Type ℓ} {B : Type κ} (array : List A) (i : ℕ) (f : A → Outcome B)
    → ((a : A) → f a ≡ fault)
    → (at_index array i >>= f) ≡ fault
at_index-bind [] i f h = refl
at_index-bind (a ∷ array) zero f h = h a
at_index-bind (a ∷ array) (suc i) f h = at_index-bind array i f h

flags_loop-IsUnknown :
    (before : List (List ℕ)) (arg : List ℕ) (after : List (List ℕ)) (flags : ℕ)
    → IsUnknown arg
    → flags_loop (before ++ arg ∷ after) flags ≡ fault
unfolding flags_loop
flags_loop-IsUnknown [] arg after flags h = rw (unterminated_index-IsUnknown arg h) refl
flags_loop-IsUnknown (first ∷ before) arg after flags h =
    unterminated_index-bind pipe_flag_names 0 (c_string first) _ λ flag_index.
      at_index-bind pipe_flag_values flag_index _
        λ value. flags_loop-IsUnknown before arg after (bit_or flags value) h

-- `lc_pipe` with an argument that is no name of a flag, wherever it stands among them, goes past the
-- end of the array of names, whatever the system does.
pub pipe-IsUnknown {ℓ} :
    {K H : Type ℓ} (system : System K H) (k : K) (before : List (List ℕ)) (arg : List ℕ)
    (after : List (List ℕ))
    → IsUnknown arg
    → pipe system k (before ++ arg ∷ after) ≡ fault
unfolding pipe
pipe-IsUnknown system k before arg after h = rw (flags_loop-IsUnknown before arg after 0 h) refl
