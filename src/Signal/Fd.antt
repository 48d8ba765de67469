-- ===== src/Signal/Fd.antt =====
-- util-src/signal.c: `l_signalfd` and the methods of its objects, in the two ways that the build
-- chooses from: signalfd(2), and a pipe that a signal handler writes to.
-- The system calls are parameters.
pub mod Close
pub mod Flaws
mod Tests
use prosody.Base.{
  ℕ, zero, suc, ◌+◌, ◌-◌, Bool, true, false, not, List, [], ◌∷◌, Option, none, some, get_elem?, set,
  ltb, if◌then◌else◌,
}
use prosody.Base.Int.{ℤ, pos, negsuc, eq_ℤ}
use prosody.Base.Lua.{Value, nil, boolean, integer, Outcome, ret, fault, ◌>>=◌}

-- The system's side: signalfd(2) and read(2) give an integer, with read(2) the signal's number.
pub record Kernel {ℓ} (K : Type ℓ) : Type ℓ where
  pub sigprocmask : K → ℤ → Bool × K
  pub signalfd : K → ℤ → ℤ × K
  pub read : K → ℤ → Option ℤ × K
  pub close : K → ℤ → Bool × K
  pub signal : K → ℤ → Bool × K
  pub pipe : K → Option (ℤ × ℤ) × K

-- `struct lsignalfd` with HAVE_SIGNALFD; the mask holds the one signal.
pub record Lsignalfd : Type 0 where
  pub fd : ℤ
  pub mask : ℤ

module _ {ℓ} {K : Type ℓ} (kernel : Kernel K) where
  -- `l_signalfd` with HAVE_SIGNALFD; `none` is nil.
  pub open_signalfd : K → ℤ → Option Lsignalfd × K
  open_signalfd k sig =
      let blocked = kernel.sigprocmask k sig in
      if not blocked.0
      then (none, blocked.1)
      else let opened = kernel.signalfd blocked.1 sig in
        if eq_ℤ opened.0 (negsuc 0)
        then (none, opened.1)
        else (some (record { fd = opened.0; mask = sig }), opened.1)

  -- `l_signalfd_read`; `none` is no value.
  pub read_signalfd : K → Lsignalfd → Option ℤ × K
  read_signalfd k sfd = kernel.read k sfd.fd

  -- `l_signalfd_close`, also `__gc`, with HAVE_SIGNALFD.
  pub close_signalfd : K → Lsignalfd → Bool × Lsignalfd × K
  close_signalfd k sfd =
      let closed = kernel.close k sfd.fd in
      if not closed.0
      then (false, sfd, closed.1)
      else (true, record sfd { fd = negsuc 0 }, closed.1)

-- `l_signalfd_getfd`
pub getfd : Lsignalfd → Value
getfd sfd = if eq_ℤ sfd.fd (negsuc 0) then nil else integer sfd.fd

-- `struct lsignalfd` without HAVE_SIGNALFD.
pub record Entry : Type 0 where
  pub fd : ℤ
  pub mask : ℤ
  pub write_fd : ℤ

abbrev pub max_signalfd : ℕ
max_signalfd = 32

-- `signalfds` and `signalfd_num`.
pub record SignalFds : Type 0 where
  pub entries : List Entry
  pub num : ℕ

-- `signal2fd`: the descriptors that the handler writes the signal to, from index `i` on with `left`
-- to go.
pub signal2fd_loop : ℕ → ℕ → SignalFds → ℤ → Outcome (List ℤ)
signal2fd_loop zero i s sig = ret []
signal2fd_loop (suc left) i s sig = elim (get_elem? s.entries i) [
  | none ↦ fault
  | some e ↦ signal2fd_loop left (i + 1) s sig >>= λ fds.
      ret (if eq_ℤ e.mask sig then e.write_fd ∷ fds else fds)
]

pub signal2fd : SignalFds → ℤ → Outcome (List ℤ)
signal2fd s sig = signal2fd_loop s.num 0 s sig

module _ {ℓ} {K : Type ℓ} (kernel : Kernel K) where
  -- `l_signalfd` without HAVE_SIGNALFD.
  pub open_pipe : K → SignalFds → ℤ → Option Entry × SignalFds × K
  open_pipe k s sig =
      if not (ltb s.num max_signalfd)
      then (none, s, k)
      else let handled = kernel.signal k sig in
        if not handled.0
        then (none, s, handled.1)
        else let piped = kernel.pipe handled.1 in
          elim piped.0 [
            | none ↦ (none, s, piped.1)
            | some (read_end, write_end) ↦
                let sfd : Entry = record { fd = read_end; mask = sig; write_fd = write_end } in
                (some sfd, record { entries = set s.entries s.num sfd; num = s.num + 1 }, piped.1)
          ]

-- The loop of `l_signalfd_close`, from index `i` down to 1. It copies the entry at `signalfd_num`,
-- which is then counted down; no more than the entries from there on can be found, so it stays
-- above 0.
pub close_loop : ℕ → SignalFds → ℤ → Outcome SignalFds
close_loop zero s fd = ret s
close_loop (suc i) s fd = elim (get_elem? s.entries (suc i)) [
  | none ↦ fault
  | some e ↦ elim (eq_ℤ e.fd fd) [
    | false ↦ close_loop i s fd
    | true ↦ elim (get_elem? s.entries s.num) [
      | none ↦ fault
      | some last ↦
          close_loop i (record { entries = set s.entries (suc i) last; num = s.num - 1 }) fd
    ]
  ]
]

module _ {ℓ} {K : Type ℓ} (kernel : Kernel K) where
  -- `l_signalfd_close` without HAVE_SIGNALFD.
  pub close_pipe : K → SignalFds → Entry → Outcome (Bool × Entry × SignalFds) × K
  close_pipe k s sfd =
      let closed = kernel.close k sfd.fd in
      if not closed.0
      then (ret (false, sfd, s), closed.1)
      else let closed' = kernel.close closed.1 sfd.write_fd in
        if not closed'.0 then (ret (false, sfd, s), closed'.1) else (
          close_loop s.num s sfd.fd >>= λ s'. ret (true, record sfd { fd = negsuc 0 }, s'),
          closed'.1,
        )
