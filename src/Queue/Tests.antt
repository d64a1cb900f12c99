-- ===== src/Queue/Tests.antt =====
-- Runs of the queue, and each theorem at an input that meets its hypotheses.
use appcenter_agent.Common.{
  ◌==◌, if◌then◌else◌, ℕ, ◌<◌, ◌*◌, ◌<◌, String, ◌≡◌, refl, ◌↔◌, int_beq_iff, true, false, Option,
  none, some, [], ◌∷◌, map, arith, leb, ℤ, pos, negsuc, int_ltb, int_ltb_asymm, int_ltb_neg_trans,
  nat_eq, int_eq, string_eq,
}
use appcenter_agent.Common.Dict.{lookup, insert, delete}
use appcenter_agent.Common.Sort.{sort, IsSorted}
use appcenter_agent.Api.{Command}
use appcenter_agent.Queue.{
  ExecutionResult, TaskQueue, new_task_queue, add_command, add_commands, pending_count,
  consume_apps_changed, is_runnable, precedes, next_runnable, minute, handle_failure,
  handle_success, Round, complete, process_one, process_commands,
}
use appcenter_agent.Queue.Invariant.{WellFormed, new_task_queue-WellFormed, add_command-WellFormed}
use appcenter_agent.Queue.Schedule.{IsNext, next_runnable_iff}
use appcenter_agent.Queue.Admit.{or_else, tasks-add_commands}
use appcenter_agent.Queue.Retry.{failure_lem, goes_on, retry}
use appcenter_agent.Queue.Budget.{budget, process_one-less}
use appcenter_agent.Queue.Loop.{Ends, process_commands-Ends}
use appcenter_agent.Queue.Apps.{listed, consume_changed}

abbrev task : ℤ → ℤ → Command
task id priority = record {
  task_id = id;
  action = "install";
  app_id = id;
  app_name = "app";
  app_version = "";
  download_url = "/files/app.msi";
  file_hash = "00";
  file_size_bytes = pos 10;
  install_args = "";
  force_update = true;
  priority = priority;
}

abbrev two_tasks : TaskQueue
two_tasks =
    add_commands (new_task_queue (pos 3)) (task (pos 20) (pos 5) ∷ task (pos 10) (pos 5) ∷ [])

abbrev succeeds : Command → ExecutionResult × Option String
succeeds c = (
  record {
    exit_code = pos 0;
    installed_version = "";
    download_duration_sec = pos 1;
    install_duration_sec = pos 1;
    message = "";
  },
  none,
)

abbrev fails : Command → ExecutionResult × Option String
fails c = (
  record {
    exit_code = negsuc 0;
    installed_version = "";
    download_duration_sec = pos 0;
    install_duration_sec = pos 0;
    message = "";
  },
  some "no network",
)

abbrev calm_round : (Command → ExecutionResult × Option String) → ℕ → Round
calm_round run now = record {
  now = now;
  jitter = 0;
  cancelled = false;
  execute = run;
  consumed = false;
  failed_at = now;
}

picks_smaller_id : next_runnable two_tasks 0 ≡ some (task (pos 10) (pos 5))
unfolding next_runnable precedes is_runnable sort lookup new_task_queue add_commands add_command
    insert
picks_smaller_id = refl

-- the run of TestRetryAndMaxRetries of taskqueue_test.go
abbrev after_failure : TaskQueue
after_failure =
    (process_one (calm_round fails 0)
      (add_commands (new_task_queue (pos 2)) (task (pos 20) (pos 1) ∷ []))).queue

two_failures_drop :
    (pending_count after_failure ≡ 1)
    × ((process_one (calm_round fails minute) after_failure).processed ≡ false)
    × (pending_count (process_one (calm_round fails (5 * minute)) after_failure).queue ≡ 0)
unfolding next_runnable precedes is_runnable sort lookup new_task_queue add_commands add_command
    insert process_one complete handle_failure delete pending_count
two_failures_drop = (refl, refl, refl)

two_tasks-WellFormed : WellFormed two_tasks
unfolding add_commands
two_tasks-WellFormed =
    add_command-WellFormed _ (add_command-WellFormed _ (new_task_queue-WellFormed (pos 3)) _) _

abbrev first_task : Command
first_task = task (pos 10) (pos 5)

process_commands-Ends_example :
    Ends
      (calm_round fails)
      (process_commands 13 (task (pos 30) (pos 0) ∷ []) (calm_round fails) two_tasks)
unfolding new_task_queue add_commands add_command insert lookup pending_count
process_commands-Ends_example =
    process_commands-Ends 13 (task (pos 30) (pos 0) ∷ []) (calm_round fails) two_tasks
      two_tasks-WellFormed (omega arith)

next_runnable_iff_example :
    (next_runnable two_tasks 0 ≡ some first_task) ↔ IsNext two_tasks 0 first_task
next_runnable_iff_example = next_runnable_iff two_tasks 0 first_task two_tasks-WellFormed

-- the same two tasks, come the other way round
abbrev swapped : TaskQueue
swapped = add_commands (new_task_queue (pos 3)) (task (pos 10) (pos 5) ∷ task (pos 20) (pos 5) ∷ [])

swapped-WellFormed : WellFormed swapped
unfolding add_commands
swapped-WellFormed =
    add_command-WellFormed _ (add_command-WellFormed _ (new_task_queue-WellFormed (pos 3)) _) _

same_lookups : (id : ℤ) → lookup id two_tasks.tasks ≡ lookup id swapped.tasks
unfolding new_task_queue lookup
same_lookups id = ground (
  arith,
  tasks-add_commands (new_task_queue (pos 3)) (task (pos 20) (pos 5) ∷ task (pos 10) (pos 5) ∷ [])
      id,
  tasks-add_commands (new_task_queue (pos 3)) (task (pos 10) (pos 5) ∷ task (pos 20) (pos 5) ∷ [])
      id,
  int_beq_iff (pos 10) id,
  int_beq_iff (pos 20) id,
)

same_retries : (id : ℤ) → lookup id two_tasks.retries ≡ lookup id swapped.retries
unfolding new_task_queue add_commands add_command lookup insert
same_retries id = refl

process_one-less_example :
    let o = process_one (calm_round fails 0) two_tasks in
    (o.processed ≡ true → budget o.queue < budget two_tasks) × WellFormed o.queue
process_one-less_example = process_one-less (calm_round fails 0) two_tasks two_tasks-WellFormed

tasks-add_commands_example :
    (lookup (pos 10) (add_commands two_tasks (task (pos 10) (pos 1) ∷ [])).tasks
      ≡ or_else (lookup (pos 10) two_tasks.tasks) (some (task (pos 10) (pos 1))))
    × ((add_commands two_tasks (task (pos 10) (pos 1) ∷ [])).retries ≡ two_tasks.retries)
tasks-add_commands_example = tasks-add_commands two_tasks (task (pos 10) (pos 1) ∷ []) (pos 10)

failure_lem_example :
    (lookup (pos 20) (handle_failure 4 (pos 10) two_tasks).tasks ≡ (
      if pos 10 == pos 20
      then (if goes_on two_tasks 4 (pos 10) then lookup (pos 20) two_tasks.tasks else none)
      else lookup (pos 20) two_tasks.tasks))
    × (lookup (pos 20) (handle_failure 4 (pos 10) two_tasks).retries ≡ (
        if pos 10 == pos 20
        then (if goes_on two_tasks 4 (pos 10) then some (retry two_tasks 4 (pos 10)) else none)
        else lookup (pos 20) two_tasks.retries))
    × (is_runnable (handle_failure 4 (pos 10) two_tasks) 9 first_task ≡ (
        if pos 10 == first_task.task_id
        then (if goes_on two_tasks 4 (pos 10)
            then leb (retry two_tasks 4 (pos 10)).next_retry_at 9
            else true)
        else is_runnable two_tasks 9 first_task))
failure_lem_example = failure_lem two_tasks 4 (pos 10) (pos 20) first_task 9

abbrev after_success : TaskQueue
after_success = handle_success first_task two_tasks

consume_changed_example :
    let (out, q') = consume_apps_changed after_success in
    (out.0 ≡ true)
    × ((id : ℤ) → listed id out.1 ≡ lookup id after_success.installed)
    × IsSorted int_ltb int_ltb_asymm int_ltb_neg_trans (map (λ a. a.app_id) out.1)
    × ((consume_apps_changed q').0 ≡ (false, []))
    × (q'.installed ≡ after_success.installed)
unfolding handle_success
consume_changed_example = consume_changed after_success refl
