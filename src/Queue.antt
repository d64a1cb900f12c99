-- ===== src/Queue.antt =====
-- internal/queue/taskqueue.go, and processCommands of cmd/service/core.go that drives it.
-- A method of *TaskQueue returns the new queue. The clock readings, the jitter, the cancelled
-- context and the executor enter by `Round`. `serverTime` is not read by nextRunnable, so it is left
-- out. Instants and durations are nanoseconds.
pub mod Invariant
pub mod Schedule
pub mod Admit
pub mod Retry
pub mod Budget
pub mod Loop
pub mod Apps
pub mod Tests
use appcenter_agent.Common.{
  ℕ, zero, suc, ◌+◌, ◌-◌, ◌*◌, ◌/◌, ◌%◌, ◌^◌, ◌≤◌, ◌<◌, String, ◌≡◌, refl, sym, ap, ◌∙◌, subst, ◌≢◌,
  ◌↔◌, ◌⊎◌, inl, inr, Bool, true, false, not, ◌&&◌, ◌||◌, Option, none, some, List, [], ◌∷◌, ◌++◌,
  map, arith, eq_iff, ltb, leb, if◌then◌else◌, ltb→lt, lt→ltb, leb→le, tests, Bool-cases,
  Option-cases, is_some, ℤ, pos, negsuc, int_beq, int_ltb, is_positive, int_beq_iff, int_ltb_irrefl,
  int_ltb_asymm, int_ltb_neg_trans, int_ltb_antisymm, HasEq, ◌==◌, nat_eq, int_eq, string_eq,
  is_blank, or_empty, length, keep_if, head?, length-append, All,
}
use appcenter_agent.Common.Dict.{
  Dict, lookup, contains, values, keys, Distinct, insert, delete, lookup-insert, lookup-delete,
  Distinct-insert, Distinct-delete, All-insert, All-delete, All-lookup,
}
use appcenter_agent.Common.Sort.{
  place, sort, All-place, All-sort, head-sort-All, head-sort-none, head-sort-min,
}
use appcenter_agent.Api.{
  Command, TaskStatusRequest, InstalledApp, RemoteSupportRequest, RemoteSupportEnd,
}

pub record ExecutionResult : Type 0 where
  pub exit_code : ℤ
  pub installed_version : String
  pub download_duration_sec : ℤ
  pub install_duration_sec : ℤ
  pub message : String

pub record RetryInfo : Type 0 where
  pub count : ℕ
  pub next_retry_at : ℕ

pub record TaskQueue : Type 0 where
  pub tasks : Dict ℤ Command
  pub retries : Dict ℤ RetryInfo
  pub max_retries : ℕ
  pub installed : Dict ℤ String
  pub apps_changed : Bool

abbrev retries_or_default : ℤ → ℕ
retries_or_default (pos zero) = 3
retries_or_default (pos (suc n)) = suc n
retries_or_default (negsuc n) = 3

-- NewTaskQueue
unfoldable pub new_task_queue : ℤ → TaskQueue
new_task_queue max_retries = record {
  tasks = [];
  retries = [];
  max_retries = retries_or_default max_retries;
  installed = [];
  apps_changed = false;
}

-- the body of the loop of AddCommands
unfoldable pub add_command : TaskQueue → Command → TaskQueue
add_command q c =
    if c.task_id == pos 0
    then q
    else if contains c.task_id q.tasks
    then q
    else record q { tasks = insert c.task_id c q.tasks }

unfoldable pub add_commands : TaskQueue → List Command → TaskQueue
add_commands q [] = q
add_commands q (c ∷ cs) = add_commands (add_command q c) cs

unfoldable pub pending_count : TaskQueue → ℕ
pending_count q = length q.tasks

version_of : TaskQueue → ℤ → InstalledApp
version_of q id = record { app_id = id; version = or_empty (lookup id q.installed) }

-- ConsumeAppsChanged
unfoldable pub consume_apps_changed : TaskQueue → (Bool × List InstalledApp) × TaskQueue
unfolding version_of
consume_apps_changed q =
    if q.apps_changed
    then (
      (true, map (version_of q) (sort int_ltb (keys q.installed))),
      record q { apps_changed = false },
    )
    else ((false, []), q)

should_execute_now : Command → Bool
should_execute_now c = true

-- the two `continue` tests of nextRunnable
unfoldable pub is_runnable : TaskQueue → ℕ → Command → Bool
unfolding should_execute_now
is_runnable q now c = elim (lookup c.task_id q.retries) [
  | none ↦ should_execute_now c
  | some retry ↦ if ltb now retry.next_retry_at then false else should_execute_now c
]

-- the `less` of sort.Slice
unfoldable pub precedes : Command → Command → Bool
precedes a b =
    if a.priority == b.priority then int_ltb a.task_id b.task_id else int_ltb a.priority b.priority

unfoldable pub next_runnable : TaskQueue → ℕ → Option Command
next_runnable q now = head? (sort precedes (keep_if (is_runnable q now) (values q.tasks)))

abbrev pub minute : ℕ
minute = 60_000_000_000

abbrev pub failures : Option RetryInfo → ℕ
failures none = 0
failures (some r) = r.count

unfoldable pub handle_failure : ℕ → ℤ → TaskQueue → TaskQueue
handle_failure now id q =
    let count = failures (lookup id q.retries) + 1 in
    if leb q.max_retries count
    then record q { retries = delete id q.retries; tasks = delete id q.tasks }
    else record q {
      retries =
          insert id (record { count = count; next_retry_at = now + count * 5 * minute }) q.retries;
    }

abbrev or_unknown : String → String
or_unknown v = if is_blank v then "unknown" else v

unfoldable pub handle_success : Command → TaskQueue → TaskQueue
handle_success task q =
    let q' = record q {
      tasks = delete task.task_id q.tasks;
      retries = delete task.task_id q.retries;
    } in
    if is_positive task.app_id
    then record q' {
      installed = insert task.app_id (or_unknown task.app_version) q.installed;
      apps_changed = true;
    }
    else q'

-- What one call of ProcessOne meets: the clock at nextRunnable, randIntn(301), whether the context
-- ends the wait, the executor, whether a heartbeat calls ConsumeAppsChanged while the lock is free,
-- and the clock at handleFailure.
pub record Round : Type 0 where
  pub now : ℕ
  pub jitter : ℕ
  pub cancelled : Bool
  pub execute : Command → ExecutionResult × Option String
  pub consumed : Bool
  pub failed_at : ℕ

pub record Outcome : Type 0 where
  pub queue : TaskQueue
  pub processed : Bool
  pub reports : List (ℤ × TaskStatusRequest)

abbrev meanwhile : Round → TaskQueue → TaskQueue
meanwhile r q = if r.consumed then (consume_apps_changed q).1 else q

failed_report : ExecutionResult → String → TaskStatusRequest
failed_report result err = record {
  status = "failed";
  progress = pos 0;
  message = err;
  exit_code = some result.exit_code;
  installed_version = "";
  download_duration_sec = pos 0;
  install_duration_sec = pos 0;
  error = err;
}

success_report : ExecutionResult → TaskStatusRequest
success_report result = record {
  status = "success";
  progress = pos 100;
  message =
      if is_blank result.message then "Installation completed successfully" else result.message;
  exit_code = some result.exit_code;
  installed_version = result.installed_version;
  download_duration_sec = result.download_duration_sec;
  install_duration_sec = result.install_duration_sec;
  error = "";
}

-- ProcessOne from the call of `execute` on
unfoldable pub complete : Round → Command → ExecutionResult × Option String → TaskQueue → Outcome
unfolding failed_report success_report
complete r task (result, some err) q = record {
  queue = handle_failure r.failed_at task.task_id (meanwhile r q);
  processed = true;
  reports = (task.task_id, failed_report result err) ∷ [];
}
complete r task (result, none) q = record {
  queue = handle_success task (meanwhile r q);
  processed = true;
  reports = (task.task_id, success_report result) ∷ [];
}

abbrev idle : TaskQueue → Outcome
idle q = record { queue = q; processed = false; reports = [] }

unfoldable pub process_one : Round → TaskQueue → Outcome
process_one r q = elim (next_runnable q r.now) [
  | none ↦ idle q
  | some task ↦
      if not task.force_update && (ltb 0 r.jitter && r.cancelled)
      then idle q
      else complete r task (r.execute task) q
]

abbrev prepend :
    List (ℤ × TaskStatusRequest)
    → Option (TaskQueue × List (ℤ × TaskStatusRequest))
    → Option (TaskQueue × List (ℤ × TaskStatusRequest))
prepend sent none = none
prepend sent (some (q, later)) = some (q, sent ++ later)

-- `for { if !ProcessOne(...) { break } }` with fuel; `rounds i` is what the i-th call meets
unfoldable pub process_loop :
    ℕ → (ℕ → Round) → ℕ → TaskQueue → Option (TaskQueue × List (ℤ × TaskStatusRequest))
process_loop zero rounds i q = none
process_loop (suc fuel) rounds i q =
    let o = process_one (rounds i) q in
    let rest = prepend o.reports (process_loop fuel rounds (suc i) o.queue) in
    if o.processed then rest else some (o.queue, o.reports)

unfoldable pub process_commands :
    ℕ → List Command → (ℕ → Round) → TaskQueue → Option (TaskQueue × List (ℤ × TaskStatusRequest))
process_commands fuel [] rounds q = process_loop fuel rounds 0 q
process_commands fuel (c ∷ cs) rounds q = process_loop fuel rounds 0 (add_commands q (c ∷ cs))
