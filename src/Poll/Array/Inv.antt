-- ===== src/Poll/Array/Inv.antt =====
-- The invariant of the array, and the set of descriptors that it stands for.
use prosody.Base.{
  ℕ, zero, suc, ◌+◌, ◌≤◌, ◌<◌, ◌≡◌, ◌≢◌, inl, inr, refl, false, none, some, length, arith,
  Bool-cases, Option-cases, ℕ_discrete,
}
use prosody.Base.Int.{ℤ, pos_part, negsuc, eq_ℤ, eq_ℤ_iff}
use prosody.Poll.{Events, is_set}
use prosody.Poll.Array.{PollState, slot, find_fd, find_fd_in_use}

-- Between two calls: the watched items are descriptors, each once, and those from `processed` on
-- have no event that is still to be told; the slots behind them are marked as not in use.
pub record IsValid (max_watched : ℕ) (s : PollState) : Type 0 where
  pub size : length s.events ≡ max_watched
  pub count_in : s.count ≤ max_watched
  pub are_fds : (i : ℕ) → i < s.count → (slot s i).fd ≢ negsuc 0
  pub once : (i j : ℕ) → i < s.count → j < s.count → (slot s i).fd ≡ (slot s j).fd → i ≡ j
  pub vacant : (i : ℕ) → s.count ≤ i → (slot s i).fd ≡ negsuc 0
  pub quiet : (i : ℕ) → pos_part s.processed ≤ i → i < s.count → is_set (slot s i).revents ≡ false

-- `fd` is watched for the events `ev`.
abbrev pub Watches : PollState → ℤ → Events → Type 0
Watches s fd ev = (i : ℕ) × (i < s.count) × ((slot s i).fd ≡ fd) × ((slot s i).events ≡ ev)

-- No item from index `i` up to `j` is `fd`.
abbrev pub Absent : PollState → ℤ → ℕ → ℕ → Type 0
Absent s fd i j = (k : ℕ) → i ≤ k → k < j → (slot s k).fd ≢ fd

pub find_fd-some :
    (left i : ℕ) (s : PollState) (fd : ℤ) (k : ℕ)
    → find_fd left i s fd ≡ some k
    → (i ≤ k) × (k < i + left) × ((slot s k).fd ≡ fd)
unfolding find_fd
find_fd-some zero i s fd k e = absurd (ground arith)
find_fd-some (suc left) i s fd k e = elim (Bool-cases (eq_ℤ (slot s i).fd fd)) [
  | inl h ↦ ground (arith, (eq_ℤ_iff (slot s i).fd fd).0 h)
  | inr h ↦
      let r = find_fd-some left (i + 1) s fd k (ground arith) in
      (omega (arith, r.0), omega (arith, r.1), r.2)
]

pub find_fd-none :
    (left i : ℕ) (s : PollState) (fd : ℤ) → find_fd left i s fd ≡ none → Absent s fd i (i + left)
unfolding find_fd
find_fd-none zero i s fd e k p q = absurd (omega arith)
find_fd-none (suc left) i s fd e k p q = elim (Bool-cases (eq_ℤ (slot s i).fd fd)) [
  | inl h ↦ absurd (ground arith)
  | inr h ↦ elim (ℕ_discrete i k) [
    | yes same ↦ rw (← same) (λ f. ground (arith, (eq_ℤ_iff (slot s i).fd fd).1 f))
    | no other ↦ find_fd-none left (i + 1) s fd (ground arith) k (omega arith) (omega arith)
  ]
]

-- On the watched items of a valid array the loop of `Lset` never meets a slot that is not in use.
pub find_fd_in_use-eq-find_fd :
    (left i : ℕ) (s : PollState) (fd : ℤ)
    → ((k : ℕ) → i ≤ k → k < i + left → (slot s k).fd ≢ negsuc 0)
    → find_fd_in_use left i s fd ≡ find_fd left i s fd
unfolding find_fd find_fd_in_use
find_fd_in_use-eq-find_fd zero i s fd h = refl
find_fd_in_use-eq-find_fd (suc left) i s fd h = ground (
  arith,
  h i (omega arith) (omega arith),
  eq_ℤ_iff (slot s i).fd (negsuc 0),
  find_fd_in_use-eq-find_fd left (i + 1) s fd (λ k p q. h k (omega arith) (omega arith)),
)

abbrev pub IsWatched : PollState → ℤ → Type 0
IsWatched s fd = (i : ℕ) × (i < s.count) × ((slot s i).fd ≡ fd)

-- The search finds what is watched, and nothing else.
pub find_fd-IsWatched :
    (s : PollState) (fd : ℤ)
    → IsWatched s fd
    → (k : ℕ) × (find_fd s.count 0 s fd ≡ some k) × (k < s.count) × ((slot s k).fd ≡ fd)
find_fd-IsWatched s fd (i, below, same) = elim (Option-cases (find_fd s.count 0 s fd)) [
  | inl e ↦ absurd (find_fd-none s.count 0 s fd e i (omega arith) (omega arith) same)
  | inr (k, e) ↦ let r = find_fd-some s.count 0 s fd k e in (k, e, omega (arith, r.1), r.2)
]

pub find_fd-not_IsWatched :
    (s : PollState) (fd : ℤ) → ¬ IsWatched s fd → find_fd s.count 0 s fd ≡ none
find_fd-not_IsWatched s fd h = elim (Option-cases (find_fd s.count 0 s fd)) [
  | inl e ↦ e
  | inr (k, e) ↦ let r = find_fd-some s.count 0 s fd k e in absurd (h (k, omega (arith, r.1), r.2))
]
