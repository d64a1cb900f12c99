-- ===== src/Queue/Admit.antt =====
-- What AddCommands admits: the first command under each identifier, beside what is pending.
use appcenter_agent.Common.{
  ◌≡◌, refl, ◌∙◌, Option, none, some, List, [], ◌∷◌, arith, if◌then◌else◌, ℤ, pos, int_beq_iff,
  ◌==◌, nat_eq, int_eq, string_eq,
}
use appcenter_agent.Common.Dict.{lookup, lookup-insert}
use appcenter_agent.Api.{Command}
use appcenter_agent.Queue.{TaskQueue, add_command, add_commands}

-- the first command of a batch under an identifier
abbrev pub first_with : ℤ → List Command → Option Command
first_with id [] = none
first_with id (c ∷ cs) = if c.task_id == id then some c else first_with id cs

abbrev pub or_else : Option Command → Option Command → Option Command
or_else none b = b
or_else (some c) b = some c

tasks-add_command :
    (q : TaskQueue) (c : Command) (id : ℤ)
    → lookup id (add_command q c).tasks
      ≡ or_else (lookup id q.tasks) (if id == pos 0 then none else first_with id (c ∷ []))
unfolding add_command
tasks-add_command q c id = ground (
  arith,
  lookup-insert c.task_id id c q.tasks,
  int_beq_iff c.task_id (pos 0),
  int_beq_iff id (pos 0),
  int_beq_iff c.task_id id,
)

kept-add_command : (q : TaskQueue) (c : Command) → (add_command q c).retries ≡ q.retries
unfolding add_command
kept-add_command q c = ground arith

-- After AddCommands an identifier has the task that was pending under it, or else the first
-- command of the batch with that identifier unless it is 0; the retries stay as they were.
pub tasks-add_commands :
    (q : TaskQueue) (cs : List Command) (id : ℤ)
    → (lookup id (add_commands q cs).tasks
        ≡ or_else (lookup id q.tasks) (if id == pos 0 then none else first_with id cs))
      × ((add_commands q cs).retries ≡ q.retries)
unfolding add_commands
tasks-add_commands q [] id = (ground arith, refl)
tasks-add_commands q (c ∷ cs) id =
    let ih = tasks-add_commands (add_command q c) cs id in
    (ground (arith, ih.0, tasks-add_command q c id), ih.1 ∙ kept-add_command q c)
