-- ===== src/Poll/Epoll/Drain.antt =====
-- `Lwait` tells each item that epoll_wait(2) wrote once.
use prosody.Base.{
  take-append, ℕ, zero, suc, ◌≤◌, ◌<◌, ◌≡◌, ◌∙◌, refl, sym, ap, ◌||◌, List, [], ◌∷◌, ◌++◌, length,
  length-append, get_or, take, drop, arith,
}
use prosody.Base.Lua.{Outcome, ret, raise, fault, ◌>>=◌}
use prosody.Poll.{Reply, event, Timeout, positive}
use prosody.Poll.Epoll.{
  EpollEvent, EpollState, Kernel, got, unwritten, push_event, after_wait, wait_for, wait,
}

abbrev pub report : EpollEvent → Reply
report e =
    event e.fd (e.events.pollin || e.events.pollhup || e.events.pollrdhup || e.events.pollerr)
      e.events.pollout

-- The events of a list of items, from the last one on.
abbrev pub backwards : List EpollEvent → List Reply
backwards [] = []
backwards (e ∷ es) = backwards es ++ (report e ∷ [])

-- A number of calls of `Lwait`, one after the other.
unfoldable pub waits {ℓ} :
    {K : Type ℓ} → Kernel K → ℕ → K → EpollState → Timeout → Outcome (List Reply × EpollState) × K
waits kernel zero k s timeout = (ret ([], s), k)
waits kernel (suc n) k s timeout =
    let r = wait kernel k s timeout in
    elim r.0 [
      | ret (reply, s') ↦
          let rest = waits kernel n r.1 s' timeout in
          (rest.0 >>= λ x. ret (reply ∷ x.0, x.1), rest.1)
      | raise ↦ (raise, r.1)
      | fault ↦ (fault, r.1)
    ]

backwards-take :
    (es : List EpollEvent) (n : ℕ)
    → n < length es
    → backwards (take (suc n) es) ≡ report (get_or es n unwritten) ∷ backwards (take n es)
backwards-take [] n h = absurd (omega arith)
backwards-take (e ∷ es) zero h = refl
backwards-take (e ∷ es) (suc n) h =
    ap (λ xs. xs ++ (report e ∷ [])) (backwards-take es n (omega arith))

module _ {ℓ} {K : Type ℓ} (kernel : Kernel K) where
  wait_pushes :
      (k : K) (s : EpollState) (timeout : Timeout) (n : ℕ)
      → s.processed ≡ suc n
      → wait kernel k s timeout
        ≡ (ret (report (get_or s.events n unwritten), record s { processed = n }), k)
  unfolding wait push_event
  wait_pushes k s timeout n e = ground (arith, e)

  waits_step :
      (n : ℕ) (k k1 k2 : K) (s s1 s2 : EpollState) (timeout : Timeout) (r : Reply) (rs : List Reply)
      → wait kernel k s timeout ≡ (ret (r, s1), k1)
      → waits kernel n k1 s1 timeout ≡ (ret (rs, s2), k2)
      → waits kernel (suc n) k s timeout ≡ (ret (r ∷ rs, s2), k2)
  unfolding waits
  waits_step n k k1 k2 s s1 s2 timeout r rs e e' = ground (arith, e, e')

  -- What is still to be told is told without a call of the kernel.
  drain :
      (n : ℕ) (k : K) (s : EpollState) (timeout : Timeout)
      → s.processed ≡ n
      → n ≤ length s.events
      → waits kernel n k s timeout
        ≡ (ret (backwards (take n s.events), record s { processed = 0 }), k)
  unfolding waits
  drain zero k s timeout e h = ap (λ p. (ret ([], record s { processed = p }), k)) e
  drain (suc n) k s timeout e h =
      waits_step n k k k s _ _ timeout _ _ (wait_pushes k s timeout n e)
        (drain n k (record s { processed = n }) timeout refl (omega arith))
      ∙ ap (λ xs. (ret (xs, record s { processed = 0 }), k)) (sym (backwards-take s.events n h))

  first_wait :
      (k k' : K) (s : EpollState) (e : EpollEvent) (es : List EpollEvent)
      → s.processed ≡ 0
      → kernel.epoll_wait k s.epoll_fd ≡ (got (e ∷ es), k')
      → length (e ∷ es) ≤ length s.events
      → let written = e ∷ es ++ drop (length (e ∷ es)) s.events in
        wait kernel k s positive ≡ (
          ret (
            report (get_or written (length es) unwritten),
            record s { events = written; processed = length es },
          ),
          k',
        )
  unfolding wait push_event wait_for after_wait
  first_wait k k' s e es h asked room = ground (arith, h, asked)

  -- Where nothing is left to tell and epoll_wait(2) writes one or more items, no more than there is
  -- room for, that many calls of `Lwait` tell these items, each once and from the last one on; only
  -- the first call asks the kernel, and the next one will again.
  pub wait-backwards :
      (k k' : K) (s : EpollState) (e : EpollEvent) (es : List EpollEvent)
      → s.processed ≡ 0
      → kernel.epoll_wait k s.epoll_fd ≡ (got (e ∷ es), k')
      → length (e ∷ es) ≤ length s.events
      → waits kernel (length (e ∷ es)) k s positive ≡ (
        ret (
          backwards (e ∷ es),
          record s { events = e ∷ es ++ drop (length (e ∷ es)) s.events; processed = 0 },
        ),
        k',
      )
  unfolding waits
  wait-backwards k k' s e es h asked room =
      let written = e ∷ es ++ drop (length (e ∷ es)) s.events in
      let rest =
        drain (length es) k' (record s { events = written; processed = length es }) positive refl
          (omega (arith, length-append (e ∷ es) (drop (length (e ∷ es)) s.events))) in
      let last =
        backwards-take written (length es)
          (omega (arith, length-append (e ∷ es) (drop (length (e ∷ es)) s.events))) in
      let all : backwards (take (suc (length es)) written) ≡ backwards (e ∷ es) =
        ap backwards
          (take-append (e ∷ es) (drop (length (e ∷ es)) s.events) (length (e ∷ es)) refl) in
      waits_step (length es) k k' k' s _ _ positive _ _ (first_wait k k' s e es h asked room) rest
      ∙ ap (λ xs. (ret (xs, record s { events = written; processed = 0 }), k')) (sym last ∙ all)
