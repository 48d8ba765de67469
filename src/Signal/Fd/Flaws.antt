-- ===== src/Signal/Fd/Flaws.antt =====
-- The table of pipes when one is closed: its first entry is never removed, and a full table is read
-- behind its end.
use prosody.Base.{
  ℕ, zero, suc, ◌+◌, ◌≤◌, ◌<◌, ◌≡◌, ◌≢◌, ◌∙◌, refl, ap, Bool, true, List, [], ◌∷◌, none, some,
  get_elem?, length, if◌then◌else◌, arith,
}
use prosody.Base.Int.{ℤ, negsuc, eq_ℤ, eq_ℤ_iff}
use prosody.Base.Lua.{Outcome, ret, fault, ◌>>=◌}
use prosody.Signal.Fd.{
  Kernel, Entry, max_signalfd, SignalFds, signal2fd_loop, signal2fd, close_loop, close_pipe,
}

module _ {ℓ} {A : Type ℓ} where
  get_elem?-inside : (xs : List A) (i : ℕ) → i < length xs → (x : A) × (get_elem? xs i ≡ some x)
  get_elem?-inside [] i h = absurd (omega arith)
  get_elem?-inside (x ∷ xs) zero h = (x, refl)
  get_elem?-inside (x ∷ xs) (suc i) h = get_elem?-inside xs i (omega arith)

  get_elem?-behind : (xs : List A) (i : ℕ) → length xs ≤ i → get_elem? xs i ≡ none
  get_elem?-behind [] i h = refl
  get_elem?-behind (x ∷ xs) zero h = absurd (omega arith)
  get_elem?-behind (x ∷ xs) (suc i) h = get_elem?-behind xs i (omega arith)

-- Entries that the loop passes over.
close_loop_keeps :
    (i : ℕ) (s : SignalFds) (fd : ℤ)
    → i < length s.entries
    → ((j : ℕ) (e : Entry) → 0 < j → j ≤ i → get_elem? s.entries j ≡ some e → e.fd ≢ fd)
    → close_loop i s fd ≡ ret s
unfolding close_loop
close_loop_keeps zero s fd h others = refl
close_loop_keeps (suc i) s fd h others =
    let (e, found) = get_elem?-inside s.entries (suc i) h in
    ground (
      arith,
      found,
      eq_ℤ_iff e.fd fd,
      others (suc i) e (omega arith) (omega arith) found,
      close_loop_keeps i s fd (omega arith) (λ j x p q. others j x p (omega arith)),
    )

close_loop_full :
    (n : ℕ) (s : SignalFds) (fd : ℤ) → length s.entries ≤ suc n → close_loop (suc n) s fd ≡ fault
unfolding close_loop
close_loop_full n s fd h = ground (arith, get_elem?-behind s.entries (suc n) h)

signal2fd_inside :
    (left i : ℕ) (s : SignalFds) (sig : ℤ)
    → i + left ≤ length s.entries
    → (fds : List ℤ) × (signal2fd_loop left i s sig ≡ ret fds)
unfolding signal2fd_loop
signal2fd_inside zero i s sig h = ([], refl)
signal2fd_inside (suc left) i s sig h =
    let (e, found) = get_elem?-inside s.entries i (omega arith) in
    let (fds, rest) = signal2fd_inside left (i + 1) s sig (omega arith) in
    (if eq_ℤ e.mask sig then e.write_fd ∷ fds else fds, ground (arith, found, rest))

signal2fd_first :
    (n : ℕ) (s : SignalFds) (e : Entry)
    → suc n ≤ length s.entries
    → get_elem? s.entries 0 ≡ some e
    → (fds : List ℤ) × (signal2fd_loop (suc n) 0 s e.mask ≡ ret (e.write_fd ∷ fds))
unfolding signal2fd_loop
signal2fd_first n s e h found =
    let (fds, rest) = signal2fd_inside n 1 s e.mask (omega arith) in
    (fds, ground (arith, found, rest, eq_ℤ_iff e.mask e.mask))

module _ {ℓ} {K : Type ℓ} (kernel : Kernel K) (k : K) (s : SignalFds) (e : Entry)
    (read_closed : (kernel.close k e.fd).0 ≡ true)
    (write_closed : (kernel.close (kernel.close k e.fd).1 e.write_fd).0 ≡ true) where
  abbrev after : Outcome SignalFds → Outcome (Bool × Entry × SignalFds)
  after o = o >>= λ s'. ret (true, record e { fd = negsuc 0 }, s')

  close_pipe_lem : (close_pipe kernel k s e).0 ≡ after (close_loop s.num s e.fd)
  unfolding close_pipe
  close_pipe_lem = rw (read_closed, write_closed) refl

  close_first :
      (n : ℕ)
      → s.num ≡ suc n
      → suc n < length s.entries
      → get_elem? s.entries 0 ≡ some e
      → ((j : ℕ) (x : Entry) → 0 < j → j ≤ suc n → get_elem? s.entries j ≡ some x → x.fd ≢ e.fd)
      → ((close_pipe kernel k s e).0 ≡ ret (true, record e { fd = negsuc 0 }, s))
        × (fds : List ℤ) × (signal2fd s e.mask ≡ ret (e.write_fd ∷ fds))
  unfolding signal2fd
  close_first n h room found others =
      let (fds, told) = signal2fd_first n s e (omega arith) found in
      (
        close_pipe_lem
            ∙ ap after
                (ap (λ i. close_loop i s e.fd) h ∙ close_loop_keeps (suc n) s e.fd room others),
        fds,
        ap (λ m. signal2fd_loop m 0 s e.mask) h ∙ told,
      )

  close_full :
      s.num ≡ max_signalfd → length s.entries ≡ max_signalfd → (close_pipe kernel k s e).0 ≡ fault
  close_full h size =
      close_pipe_lem
      ∙ ap after (ap (λ i. close_loop i s e.fd) h ∙ close_loop_full 31 s e.fd (omega arith))

-- Where both ends of the pipe that was opened first are closed without an error, and no other entry
-- up to index `signalfd_num`, which is inside the table, has its descriptor, the table is left as it
-- was, and its signal is still written to the closed end.
pub close_pipe-first {ℓ} :
    {K : Type ℓ} (kernel : Kernel K) (k : K) (s : SignalFds) (e : Entry) (n : ℕ)
    → (kernel.close k e.fd).0 ≡ true
    → (kernel.close (kernel.close k e.fd).1 e.write_fd).0 ≡ true
    → s.num ≡ suc n
    → suc n < length s.entries
    → get_elem? s.entries 0 ≡ some e
    → ((j : ℕ) (x : Entry) → 0 < j → j ≤ suc n → get_elem? s.entries j ≡ some x → x.fd ≢ e.fd)
    → ((close_pipe kernel k s e).0 ≡ ret (true, record e { fd = negsuc 0 }, s))
      × (fds : List ℤ) × (signal2fd s e.mask ≡ ret (e.write_fd ∷ fds))
close_pipe-first kernel k s e n r w = close_first kernel k s e r w n

-- Where both ends of a pipe are closed without an error and the table is full, the loop reads an
-- entry behind its end.
pub close_pipe-full {ℓ} :
    {K : Type ℓ} (kernel : Kernel K) (k : K) (s : SignalFds) (e : Entry)
    → (kernel.close k e.fd).0 ≡ true
    → (kernel.close (kernel.close k e.fd).1 e.write_fd).0 ≡ true
    → s.num ≡ max_signalfd
    → length s.entries ≡ max_signalfd
    → (close_pipe kernel k s e).0 ≡ fault
close_pipe-full kernel k s e r w = close_full kernel k s e r w
