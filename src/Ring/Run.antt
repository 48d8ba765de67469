-- ===== src/Ring/Run.antt =====
-- A sequence of calls on one ring, against the same sequence on the queue of its bytes.
use prosody.Base.{ℕ, ◌^◌, ◌<◌, ◌≡◌, refl, ap, subst₂, Bool, List, [], ◌∷◌, length, ◌∙◌}
use prosody.Base.Int.{ℤ}
use prosody.Base.Lua.{Value, Outcome, ret, ◌>>=◌}
use prosody.Ring.{Ring, write, read, discard}
use prosody.Ring.Queue
use prosody.Ring.Queue.{Queue}
use prosody.Ring.Inv.{IsValid, Refines, contents}
use prosody.Ring.Read.{IsLong, read-Refines, discard-Refines}
use prosody.Ring.Write.{write-Refines}

pub data Call : Type 0 where
  put : List ℕ → Call
  get : ℤ → Bool → Call
  skip : ℤ → Call

-- The arguments that Lua can pass.
abbrev pub IsCall : Call → Type 0
IsCall (put s) = length s < 2 ^ 63
IsCall (get n peek) = IsLong n
IsCall (skip n) = IsLong n

abbrev pub AreCalls : List Call → Type 0
AreCalls [] = Unit
AreCalls (c ∷ cs) = IsCall c × AreCalls cs

pub call : Ring → Call → Outcome (Value × Ring)
call b (put s) = write b s
call b (get n peek) = read b n peek
call b (skip n) = ret (discard b n)

unfoldable pub queue_call : ℕ → Queue → Call → Value × Queue
queue_call size q (put s) = Queue.write size q s
queue_call size q (get n peek) = Queue.read q n peek
queue_call size q (skip n) = Queue.discard q n

pub run : Ring → List Call → Outcome (List Value × Ring)
run b [] = ret ([], b)
run b (c ∷ cs) = call b c >>= λ r. run r.1 cs >>= λ rest. ret (r.0 ∷ rest.0, rest.1)

unfoldable pub queue_run : ℕ → Queue → List Call → List Value × Queue
queue_run size q [] = ([], q)
queue_run size q (c ∷ cs) =
    let r = queue_call size q c in let rest = queue_run size r.1 cs in (r.0 ∷ rest.0, rest.1)

call-Refines :
    {b : Ring} (c : Call)
    → IsValid b
    → IsCall c
    → Refines b (queue_call b.alen (contents b) c) (call b c)
unfolding call queue_call
call-Refines (put s) v h = write-Refines s v h
call-Refines (get n peek) v h = read-Refines n peek v h
call-Refines (skip n) v h = discard-Refines n v h

run_from :
    (cs : List Call) (b : Ring) (size : ℕ) (q : Queue)
    → IsValid b
    → AreCalls cs
    → b.alen ≡ size
    → contents b ≡ q
    → (b' : Ring) × (run b cs ≡ ret ((queue_run size q cs).0, b'))
      × IsValid b'
      × (contents b' ≡ (queue_run size q cs).1)
unfolding run queue_run
run_from [] b size q v h e f = (b, refl, v, f)
run_from (c ∷ cs) b size q v h e f =
    let r : Refines b (queue_call size q c) (call b c) =
      subst₂ (λ n x. Refines b (queue_call n x c) (call b c)) e f (call-Refines c v h.0) in
    let rest =
      run_from cs r.after size (queue_call size q c).1 r.valid h.1 (r.same_alen ∙ e) r.bytes in
    (
      rest.0,
      ap (λ m. m >>= λ x. run x.1 cs >>= λ t. ret (x.0 ∷ t.0, t.1)) r.returns
          ∙ ap (λ m. m >>= λ t. ret ((queue_call size q c).0 ∷ t.0, t.1)) rest.1,
      rest.2,
      rest.3,
    )

-- No sequence of `rb_write`, `rb_read` and `rb_discard` tells a valid ring from a queue of the bytes
-- that it holds, bounded by the size of its storage: the values returned are the same, the bytes
-- left are the same, and no access leaves the storage.
pub run_refines :
    {b : Ring} (cs : List Call)
    → IsValid b
    → AreCalls cs
    → (b' : Ring) × (run b cs ≡ ret ((queue_run b.alen (contents b) cs).0, b'))
      × IsValid b'
      × (contents b' ≡ (queue_run b.alen (contents b) cs).1)
run_refines {b} cs v h = run_from cs b b.alen (contents b) v h refl refl
