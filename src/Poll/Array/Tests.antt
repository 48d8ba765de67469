-- ===== src/Poll/Array/Tests.antt =====
-- The array of `util.poll` on small inputs, and the theorems at such inputs.
use prosody.Base.{ℕ, zero, suc, ◌≡◌, ◌≢◌, ◌≤◌, ◌<◌, refl, true, false, List, [], ◌∷◌, arith}
use prosody.Base.Int.{pos, negsuc}
use prosody.Base.Lua.{ret}
use prosody.Poll.{event, failed, eexist, Events, no_events, is_set, negative}
use prosody.Poll.Array.{
  Pollfd, PollState, unused, slot, find_fd, add, push_event, Answer, ready, wait, push_loop,
}
use prosody.Poll.Array.Inv.{IsValid}
use prosody.Poll.Array.Wait.{pending}
use prosody.Poll.Array.WaitInv.{wait-IsValid}

abbrev readable : Events
readable = record no_events { pollin = true }

-- 5 and 7 are watched in an array of four; what poll(2) reported of 7 is told, and of 5 not yet.
abbrev two_watched : PollState
two_watched = record {
  processed = pos 1;
  count = 2;
  events =
      record { fd = pos 5; events = readable; revents = readable }
      ∷ record { fd = pos 7; events = readable; revents = no_events }
      ∷ unused
      ∷ unused
      ∷ [];
}

two_fds : (i : ℕ) → i < 2 → (slot two_watched i).fd ≢ negsuc 0
two_fds zero h = ground arith
two_fds (suc zero) h = ground arith
two_fds (suc (suc i)) h = absurd (omega arith)

two_once : (i j : ℕ) → i < 2 → j < 2 → (slot two_watched i).fd ≡ (slot two_watched j).fd → i ≡ j
two_once zero zero h k e = refl
two_once zero (suc zero) h k e = absurd (ground arith)
two_once (suc zero) zero h k e = absurd (ground arith)
two_once (suc zero) (suc zero) h k e = refl
two_once (suc (suc i)) j h k e = absurd (omega arith)
two_once i (suc (suc j)) h k e = absurd (omega arith)

two_vacant : (i : ℕ) → 2 ≤ i → (slot two_watched i).fd ≡ negsuc 0
two_vacant zero h = absurd (omega arith)
two_vacant (suc zero) h = absurd (omega arith)
two_vacant (suc (suc zero)) h = refl
two_vacant (suc (suc (suc zero))) h = refl
two_vacant (suc (suc (suc (suc i)))) h = refl

two_quiet : (i : ℕ) → 1 ≤ i → i < 2 → is_set (slot two_watched i).revents ≡ false
two_quiet zero h k = absurd (omega arith)
two_quiet (suc zero) h k = refl
two_quiet (suc (suc i)) h k = absurd (omega arith)

two_watched-IsValid : IsValid 4 two_watched
two_watched-IsValid = record {
  size = refl;
  count_in = omega arith;
  are_fds = two_fds;
  once = two_once;
  vacant = two_vacant;
  quiet = two_quiet;
}

-- poll(2) that reports the first item.
abbrev first_ready : List Pollfd → Answer
first_ready es = ready (readable ∷ [])

wait_tells : wait two_watched negative first_ready ≡ ret (push_event two_watched)
unfolding wait push_event push_loop
wait_tells = refl

twice_added : (add 4 two_watched (pos 7) true false).0 ≡ failed eexist
unfolding add find_fd
twice_added = refl

wait-IsValid_example : IsValid 4 (push_event two_watched).1
wait-IsValid_example =
    wait-IsValid negative first_ready (push_event two_watched).0 (push_event two_watched).1
      two_watched-IsValid wait_tells

pending_first : pending 1 two_watched ≡ event (pos 5) true false ∷ []
unfolding pending
pending_first = refl
