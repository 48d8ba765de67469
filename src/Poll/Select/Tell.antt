-- ===== src/Poll/Select/Tell.antt =====
-- `Lpushevent` over the sets tells each event once.
use prosody.Base.{
  ℕ, zero, suc, ◌+◌, ◌-◌, ◌≤◌, ◌<◌, ◌≡◌, ◌∙◌, refl, ap, Bool, ◌||◌, List, [], ◌∷◌, ◌++◌, length,
  arith, Bool-cases, inl, inr, if◌then◌else◌,
}
use prosody.Base.Int.{pos}
use prosody.Poll.{Reply, event, nothing}
use prosody.Poll.Select.{SelectState, told, push_loop, push_event, next_fd}

abbrev pub is_pending : SelectState → ℕ → Bool
is_pending s fd = s.readable fd || s.writable fd || s.err fd

abbrev pub report : SelectState → ℕ → Reply
report s fd = event (pos fd) (s.readable fd || s.err fd) (s.writable fd)

-- The events of `left` descriptors from `fd` on, upwards.
unfoldable pub pending : ℕ → ℕ → SelectState → List Reply
pending zero fd s = []
pending (suc left) fd s =
    let rest = pending left (fd + 1) s in if is_pending s fd then report s fd ∷ rest else rest

-- The replies to a number of calls of `Lpushevent`, one after the other.
unfoldable pub tell : ℕ → ℕ → SelectState → List Reply
tell fd_setsize zero s = []
tell fd_setsize (suc n) s =
    let r = push_event fd_setsize s in let rest = tell fd_setsize n r.1 in r.0 ∷ rest

pending-told :
    (left fd n : ℕ) (s : SelectState) → n < fd → pending left fd (told s n) ≡ pending left fd s
unfolding pending
pending-told zero fd n s h = refl
pending-told (suc left) fd n s h = ground (arith, pending-told left (fd + 1) n s (omega arith))

-- The loop of `Lpushevent` by what is pending from its start on.
pub push_loop_lem :
    (left fd : ℕ) (s : SelectState)
    → (pending left fd s ≡ [] → push_loop left fd s ≡ (nothing, s))
      × ((r : Reply) (rest : List Reply)
          → pending left fd s ≡ r ∷ rest
          → (n : ℕ) × (fd ≤ n)
            × (n < fd + left)
            × (push_loop left fd s ≡ (r, told s n))
            × (pending (fd + left - (n + 1)) (n + 1) s ≡ rest)
            × (r ≡ report s n))
unfolding pending push_loop
push_loop_lem zero fd s = (λ e. refl, λ r rest e. absurd (ground arith))
push_loop_lem (suc left) fd s = elim (Bool-cases (is_pending s fd)) [
  | inl h ↦ (
    λ e. absurd (ground arith),
    λ r rest e.
        let same : fd + suc left - (fd + 1) ≡ left = omega arith in
        (
          fd,
          omega arith,
          omega arith,
          ground arith,
          ap (λ m. pending m (fd + 1) s) same ∙ ground arith,
          ground arith,
        ),
  )
  | inr h ↦ (
    λ e. ground (arith, (push_loop_lem left (fd + 1) s).0),
    λ r rest e.
        let t = (push_loop_lem left (fd + 1) s).1 r rest (ground arith) in
        let same : fd + suc left - (t.0 + 1) ≡ fd + 1 + left - (t.0 + 1) = omega arith in
        (
          t.0,
          omega (arith, t.1),
          omega (arith, t.2),
          ground (arith, t.3),
          ap (λ m. pending m (t.0 + 1) s) same ∙ t.4,
          t.5,
        ),
  )
]

abbrev pub to_tell : ℕ → SelectState → List Reply
to_tell fd_setsize s = pending (fd_setsize - next_fd s) (next_fd s) s

next_fd-told : (s : SelectState) (n : ℕ) → next_fd (told s n) ≡ n + 1
next_fd-told s n = ground arith

tell_from :
    (fd_setsize : ℕ) (events : List Reply) (s : SelectState)
    → to_tell fd_setsize s ≡ events
    → tell fd_setsize (suc (length events)) s ≡ events ++ (nothing ∷ [])
unfolding tell push_event
tell_from fd_setsize [] s e =
    ap (λ r. r.0 ∷ []) ((push_loop_lem (fd_setsize - next_fd s) (next_fd s) s).0 e)
tell_from fd_setsize (r ∷ events) s e =
    let t = (push_loop_lem (fd_setsize - next_fd s) (next_fd s) s).1 r events e in
    let same : fd_setsize - (t.0 + 1) ≡ next_fd s + (fd_setsize - next_fd s) - (t.0 + 1) =
      omega (arith, t.2) in
    let rest = tell_from fd_setsize events (told s t.0) (
      ap (λ m. pending (fd_setsize - m) m (told s t.0)) (next_fd-told s t.0)
      ∙ pending-told (fd_setsize - (t.0 + 1)) (t.0 + 1) t.0 s (omega arith)
      ∙ ap (λ m. pending m (t.0 + 1) s) same
      ∙ t.4) in
    ap (λ x. x.0 ∷ tell fd_setsize (suc (length events)) x.1) t.3 ∙ ap (λ xs. r ∷ xs) rest

-- Calls of `Lpushevent` in a row tell the events of the descriptors behind `processed`, each once
-- and upwards, and then that there is nothing more.
pub tell-to_tell :
    (fd_setsize : ℕ) (s : SelectState)
    → let events = to_tell fd_setsize s in
      tell fd_setsize (suc (length events)) s ≡ events ++ (nothing ∷ [])
tell-to_tell fd_setsize s = tell_from fd_setsize (to_tell fd_setsize s) s refl
