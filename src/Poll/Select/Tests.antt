-- ===== src/Poll/Select/Tests.antt =====
-- The sets of `util.poll` on small inputs, and the theorems at such inputs.
use prosody.Base.{ℕ, ◌≡◌, refl, true, false, [], ◌∷◌}
use prosody.Base.Int.{pos, negsuc}
use prosody.Base.Lua.{ret}
use prosody.Poll.{done, event, nothing, positive}
use prosody.Poll.Select.{
  FdSet, empty, SelectState, Answer, ready, new, told, answered, add, added, push_loop, push_event,
  after_select, select_for, wait,
}
use prosody.Poll.Select.Inv.{IsSelect}
use prosody.Poll.Select.Tell.{tell}
use prosody.Poll.Select.Watched.{Step, IsReachable, wait-IsReachable}

-- Sets of ten bits, with 3 and 7 watched for reading; 3 was the last to be told.
abbrev none_watched : SelectState
none_watched = record {
  processed = pos 3;
  wantread = empty;
  wantwrite = empty;
  readable = empty;
  writable = empty;
  all = empty;
  err = empty;
}

abbrev two_watched : SelectState
two_watched = added (added none_watched 3 true false) 7 true false

-- select(2) that reports all that it is asked for reading.
abbrev all_readable : FdSet → FdSet → FdSet → Answer
all_readable r w e = record { result = ready; readable = r; writable = empty; err = empty }

abbrev one_added : SelectState
one_added = added (new 10) 3 true false

adds_three : add 10 (new 10) (pos 3) true false ≡ ret (done, one_added)
unfolding add new
adds_three = refl

tell_order :
    tell 10 3 (record two_watched { readable = two_watched.wantread; processed = negsuc 0 })
    ≡ event (pos 3) true false ∷ event (pos 7) true false ∷ nothing ∷ []
unfolding tell push_event push_loop
tell_order = refl

all_readable-IsSelect : IsSelect all_readable
all_readable-IsSelect r w e = (λ k h. h, λ k h. absurd (cc), λ k h. absurd (cc))

abbrev three_told : SelectState
three_told =
    told
      (record (answered one_added (all_readable one_added.wantread empty empty)) {
        processed = negsuc 0;
      })
      3

wait_three : wait 10 one_added positive all_readable ≡ ret (event (pos 3) true false, three_told)
unfolding wait push_event push_loop select_for after_select new
wait_three = refl

wait-IsReachable_example : (n : ℕ) × (pos 3 ≡ pos n) × (one_added.all n ≡ true)
wait-IsReachable_example =
    wait-IsReachable positive all_readable (pos 3) true false
      (IsReachable.next IsReachable.start (Step.adds (pos 3) true false done adds_three))
      all_readable-IsSelect wait_three
