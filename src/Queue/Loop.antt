-- ===== src/Queue/Loop.antt =====
-- The loop of processCommands: it ends, and what its end means.
use appcenter_agent.Common.{
  ℕ, zero, suc, ◌+◌, ◌*◌, ◌≤◌, ◌<◌, ◌≡◌, refl, ◌∙◌, subst, inl, inr, false, Option, some, List, [],
  ◌∷◌, ◌++◌, arith, Bool-cases, ℤ, nat_eq, int_eq, string_eq, length,
}
use appcenter_agent.Common.Dict.{Dict, insert}
use appcenter_agent.Api.{Command, TaskStatusRequest}
use appcenter_agent.Queue.{
  TaskQueue, add_command, add_commands, pending_count, Round, complete, process_one, prepend,
  process_loop, process_commands,
}
use appcenter_agent.Queue.Invariant.{WellFormed, add_command-WellFormed}
use appcenter_agent.Queue.Budget.{budget, budget-le, process_one-less}

-- The loop ended in `q'` after `sent`, because its last call, at some round, ran no task.
abbrev pub Ends : (ℕ → Round) → Option (TaskQueue × List (ℤ × TaskStatusRequest)) → Type 0
Ends rounds r =
    (q' : TaskQueue) × (sent : List (ℤ × TaskStatusRequest)) × (r ≡ some (q', sent))
    × WellFormed q'
    × ((last : ℕ) × ((process_one (rounds last) q').processed ≡ false))

idle-unchanged :
    (r : Round) (q : TaskQueue) → (process_one r q).processed ≡ false → (process_one r q).queue ≡ q
unfolding process_one complete
idle-unchanged r q e = ground arith

prepend-Ends :
    (rounds : ℕ → Round) (sent : List (ℤ × TaskStatusRequest))
    (r : Option (TaskQueue × List (ℤ × TaskStatusRequest)))
    → Ends rounds r
    → Ends rounds (prepend sent r)
prepend-Ends rounds sent r (q', later, e, ok, last) = (q', sent ++ later, rw e, ok, last)

process_loop-Ends :
    (fuel : ℕ) (rounds : ℕ → Round) (i : ℕ) (q : TaskQueue)
    → WellFormed q
    → budget q < fuel
    → Ends rounds (process_loop fuel rounds i q)
unfolding process_loop
process_loop-Ends zero rounds i q h enough = elim enough [ ]
process_loop-Ends (suc fuel) rounds i q h enough =
    let (less, ok) = process_one-less (rounds i) q h in
    elim (Bool-cases (process_one (rounds i) q).processed) [
      | inl ran ↦ rw ran (
          prepend-Ends rounds _ _ (
            process_loop-Ends fuel rounds (suc i) (process_one (rounds i) q).queue ok
              (omega (arith, less ran))))
      | inr rest ↦ rw rest (
        (process_one (rounds i) q).queue,
        (process_one (rounds i) q).reports,
        refl,
        ok,
        (i, rw (idle-unchanged (rounds i) q rest) rest),
      )
    ]

length-insert {ℓ} :
    {V : Type ℓ} (k : ℤ) (v : V) (m : Dict ℤ V) → length (insert k v m) ≤ length m + 1
unfolding insert
length-insert k v [] = omega arith
length-insert k v ((j, w) ∷ m) = ground (arith, length-insert k v m)

add_command-bound :
    (q : TaskQueue) (c : Command)
    → (pending_count (add_command q c) ≤ pending_count q + 1)
      × ((add_command q c).max_retries ≡ q.max_retries)
unfolding add_command pending_count
add_command-bound q c = ground (arith, length-insert c.task_id c q.tasks)

add_commands-bound :
    (q : TaskQueue) (cs : List Command)
    → WellFormed q
    → WellFormed (add_commands q cs)
      × (pending_count (add_commands q cs) ≤ pending_count q + length cs)
      × ((add_commands q cs).max_retries ≡ q.max_retries)
unfolding add_commands
add_commands-bound q [] h = (h, omega arith, refl)
add_commands-bound q (c ∷ cs) h =
    let (ok, small, same) =
      add_commands-bound (add_command q c) cs (add_command-WellFormed q h c) in
    let one = add_command-bound q c in (ok, omega (arith, one.0, small), same ∙ one.1)

fits : (b b' m n p f : ℕ) → p ≤ b' * m → b' ≡ b → m ≤ n → b * n < f → p < f
fits b b' m n p f h e k l = let h' : p ≤ b * m = subst (λ z. p ≤ z * m) e h in grind arith

-- From a well-formed queue, processCommands returns, whatever the executor, the clock and the
-- jitter do, if the fuel exceeds max_retries times the number of pending and new tasks; the
-- final queue is well formed and the last call of ProcessOne ran no task on it.
pub process_commands-Ends :
    (fuel : ℕ) (cs : List Command) (rounds : ℕ → Round) (q : TaskQueue)
    → WellFormed q
    → q.max_retries * (pending_count q + length cs) < fuel
    → Ends rounds (process_commands fuel cs rounds q)
unfolding process_commands
process_commands-Ends fuel [] rounds q h enough =
    process_loop-Ends fuel rounds 0 q h (omega (arith, budget-le q))
process_commands-Ends fuel (c ∷ cs) rounds q h enough =
    let (ok, small, same) = add_commands-bound q (c ∷ cs) h in
    process_loop-Ends fuel rounds 0 (add_commands q (c ∷ cs)) ok
      (fits q.max_retries _ _ _ _ fuel (budget-le (add_commands q (c ∷ cs))) same small enough)
