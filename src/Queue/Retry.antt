-- ===== src/Queue/Retry.antt =====
-- What handleFailure does to the task that failed, and to the others.
use appcenter_agent.Common.{
  ℕ, ◌+◌, ◌*◌, ◌≤◌, ◌<◌, ◌≡◌, ◌≢◌, true, false, none, some, arith, ltb, leb, if◌then◌else◌, ℤ, ◌==◌,
  Bool, Option, ap, refl, sym, ◌∙◌, int_beq_iff, nat_eq, int_eq, string_eq,
}
use appcenter_agent.Common.Dict.{lookup, lookup-insert, lookup-delete}
use appcenter_agent.Api.{Command}
use appcenter_agent.Queue.{RetryInfo, TaskQueue, is_runnable, minute, failures, handle_failure}

not-ltb : (a b : ℕ) → (if ltb a b then false else true) ≡ leb b a
not-ltb a b = ground arith

abbrev runs : ℕ → Option RetryInfo → Bool
runs t none = true
runs t (some r) = leb r.next_retry_at t

runs_by_retries :
    (q : TaskQueue) (t : ℕ) (c : Command) → is_runnable q t c ≡ runs t (lookup c.task_id q.retries)
unfolding is_runnable
runs_by_retries q t c = by_retry (lookup c.task_id q.retries)
  where
    by_retry :
        (o : Option RetryInfo)
        → (elim o [ none ↦ true | some r ↦ if ltb t r.next_retry_at then false else true ])
          ≡ runs t o
    by_retry none = refl
    by_retry (some r) = not-ltb t r.next_retry_at

runs-if :
    (t : ℕ) (same on : Bool) (r : RetryInfo) (o : Option RetryInfo)
    → runs t (if same then (if on then some r else none) else o)
      ≡ (if same then (if on then leb r.next_retry_at t else true) else runs t o)
runs-if t true true r o = refl
runs-if t true false r o = refl
runs-if t false on r o = refl

module _ (q : TaskQueue) (now : ℕ) (id : ℤ) where
  abbrev pub retry : RetryInfo
  retry = record {
    count = failures (lookup id q.retries) + 1;
    next_retry_at = now + (failures (lookup id q.retries) + 1) * 5 * minute;
  }

  pub retries-failure :
      failures (lookup id q.retries) + 1 < q.max_retries
      → lookup id (handle_failure now id q).retries ≡ some retry
  unfolding handle_failure
  retries-failure h = ground (arith, lookup-insert id id retry q.retries, int_beq_iff id id)

  -- If the failures of a task, this one included, stay below the limit, the task stays pending
  -- after handleFailure and may run again exactly from five minutes per failure after the
  -- failure on.
  pub failure_backs_off :
      (c : Command) (t : ℕ)
      → c.task_id ≡ id
      → failures (lookup id q.retries) + 1 < q.max_retries
      → (lookup id (handle_failure now id q).tasks ≡ lookup id q.tasks)
        × (is_runnable (handle_failure now id q) t c
            ≡ leb (now + (failures (lookup id q.retries) + 1) * 5 * minute) t)
  unfolding handle_failure is_runnable
  failure_backs_off c t e h =
      (ground arith, rw (e, retries-failure h, is_runnable) (not-ltb t retry.next_retry_at))

  -- If the failures of a task, this one included, reach the limit, handleFailure removes the
  -- task and its retry record.
  pub failure_drops :
      q.max_retries ≤ failures (lookup id q.retries) + 1
      → (lookup id (handle_failure now id q).tasks ≡ none)
        × (lookup id (handle_failure now id q).retries ≡ none)
  unfolding handle_failure
  failure_drops h =
      ground (arith, lookup-delete id id q.tasks, lookup-delete id id q.retries, int_beq_iff id id)

  -- handleFailure of one task leaves the pending command and the retry record of every other
  -- identifier as they were.
  pub failure_spares :
      (j : ℤ)
      → id ≢ j
      → (lookup j (handle_failure now id q).tasks ≡ lookup j q.tasks)
        × (lookup j (handle_failure now id q).retries ≡ lookup j q.retries)
  unfolding handle_failure
  failure_spares j h = ground (
    arith,
    lookup-delete id j q.tasks,
    lookup-delete id j q.retries,
    lookup-insert id j (retry) q.retries,
    int_beq_iff id j,
  )

  -- whether the failures, this one included, stay below the limit
  abbrev pub goes_on : Bool
  goes_on = ltb (failures (lookup id q.retries) + 1) q.max_retries

  tasks-failure :
      (j : ℤ)
      → lookup j (handle_failure now id q).tasks
        ≡ (if id == j then (if goes_on then lookup j q.tasks else none) else lookup j q.tasks)
  unfolding handle_failure
  tasks-failure j = ground (arith, lookup-delete id j q.tasks, int_beq_iff id j)

  retries-failure_all :
      (j : ℤ)
      → lookup j (handle_failure now id q).retries
        ≡ (if id == j then (if goes_on then some retry else none) else lookup j q.retries)
  unfolding handle_failure
  retries-failure_all j =
      ground
        (arith, lookup-delete id j q.retries, lookup-insert id j retry q.retries, int_beq_iff id j)

  -- After handleFailure of a task every identifier has the command that it had, but that of the
  -- task has none if its failures, this one included, reach the limit; every identifier has the
  -- retry record that it had, but that of the task has none, or, below the limit, one with the
  -- new count whose time is five minutes per failure after the failure; and so a command may run
  -- when its own record says so: from that time on below the limit, at any time without a
  -- record, and as before for other tasks.
  pub failure_lem :
      (j : ℤ) (c : Command) (t : ℕ)
      → (lookup j (handle_failure now id q).tasks
          ≡ (if id == j then (if goes_on then lookup j q.tasks else none) else lookup j q.tasks))
        × (lookup j (handle_failure now id q).retries
            ≡ (if id == j then (if goes_on then some retry else none) else lookup j q.retries))
        × (is_runnable (handle_failure now id q) t c ≡ (
            if id == c.task_id
            then (if goes_on then leb retry.next_retry_at t else true)
            else is_runnable q t c))
  failure_lem j c t = (
    tasks-failure j,
    retries-failure_all j,
    (runs_by_retries (handle_failure now id q) t c
        ∙ ap (runs t) (retries-failure_all c.task_id)
        ∙ runs-if t (id == c.task_id) goes_on retry (lookup c.task_id q.retries)
        ∙ ap
            (λ b.
              if id == c.task_id then (if goes_on then leb retry.next_retry_at t else true) else b)
            (sym (runs_by_retries q t c))),
  )
