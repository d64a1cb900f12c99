-- ===== src/Queue/Invariant.antt =====
-- What holds of the task queue between two calls, and that every operation keeps it.
use appcenter_agent.Common.{
  ℕ, zero, suc, ◌+◌, ◌<◌, String, ◌≡◌, refl, ◌≢◌, inl, inr, true, false, arith, leb, Bool-cases, ℤ,
  pos, negsuc, is_positive, int_beq_iff, ◌==◌, nat_eq, int_eq, string_eq, is_blank, All,
}
use appcenter_agent.Common.Dict.{
  lookup, contains, Distinct, insert, delete, contains-insert, contains-delete, Distinct-insert,
  Distinct-delete, All-insert, All-delete,
}
use appcenter_agent.Api.{Command}
use appcenter_agent.Queue.{
  RetryInfo, TaskQueue, new_task_queue, add_command, consume_apps_changed, failures, handle_failure,
  handle_success, or_unknown,
}

-- Every retry belongs to a pending task and is below the limit; every task stands under its own
-- identifier, which is not 0; every recorded app has a positive identifier and a version.
pub record WellFormed (q : TaskQueue) : Type 0 where
  pub positive : 0 < q.max_retries
  pub tasks_distinct : Distinct q.tasks
  pub retries_distinct : Distinct q.retries
  pub installed_distinct : Distinct q.installed
  pub keyed : All (λ e. (e.1.task_id ≡ e.0) × (e.0 ≢ pos 0)) q.tasks
  pub counted : All (λ e. (0 < e.1.count) × (e.1.count < q.max_retries)) q.retries
  pub backed : (id : ℤ) → contains id q.retries ≡ true → contains id q.tasks ≡ true
  pub named : All (λ e. (is_positive e.0 ≡ true) × (is_blank e.1 ≡ false)) q.installed

retries_or_default-pos : (m : ℤ) → 0 < (new_task_queue m).max_retries
unfolding new_task_queue
retries_or_default-pos (pos zero) = omega arith
retries_or_default-pos (pos (suc n)) = omega arith
retries_or_default-pos (negsuc n) = omega arith

pub new_task_queue-WellFormed : (m : ℤ) → WellFormed (new_task_queue m)
unfolding new_task_queue lookup
new_task_queue-WellFormed m = record {
  positive = retries_or_default-pos m;
  tasks_distinct = tt;
  retries_distinct = tt;
  installed_distinct = tt;
  keyed = tt;
  counted = tt;
  backed = λ id h. h;
  named = tt;
}

module _ (q : TaskQueue) (h : WellFormed q) where
  admit-WellFormed :
      (c : Command)
      → c.task_id ≢ pos 0
      → WellFormed (record q { tasks = insert c.task_id c q.tasks })
  admit-WellFormed c id_ok = record {
    positive = h.positive;
    tasks_distinct = Distinct-insert c.task_id c q.tasks h.tasks_distinct;
    retries_distinct = h.retries_distinct;
    installed_distinct = h.installed_distinct;
    keyed = All-insert _ c.task_id c q.tasks (refl, id_ok) h.keyed;
    counted = h.counted;
    backed = λ id b. ground (arith, contains-insert c.task_id id c q.tasks, h.backed id b);
    named = h.named;
  }

  pub add_command-WellFormed : (c : Command) → WellFormed (add_command q c)
  unfolding add_command
  add_command-WellFormed c = elim (Bool-cases (c.task_id == pos 0)) [
    | inl zero_id ↦ rw zero_id h
    | inr id_ok ↦ elim (Bool-cases (contains c.task_id q.tasks)) [
      | inl old ↦ rw (id_ok, old) h
      | inr new ↦
          rw (id_ok, new)
            (admit-WellFormed c (λ e. ground (arith, (int_beq_iff c.task_id (pos 0)).1 e)))
    ]
  ]

  quiet : WellFormed (record q { apps_changed = false })
  quiet = record {
    positive = h.positive;
    tasks_distinct = h.tasks_distinct;
    retries_distinct = h.retries_distinct;
    installed_distinct = h.installed_distinct;
    keyed = h.keyed;
    counted = h.counted;
    backed = h.backed;
    named = h.named;
  }

  pub consume-WellFormed : WellFormed (consume_apps_changed q).1
  unfolding consume_apps_changed
  consume-WellFormed = elim (Bool-cases q.apps_changed) [ inl e ↦ simp e quiet | inr e ↦ simp e h ]

  drop-WellFormed :
      (id : ℤ) → WellFormed (record q { retries = delete id q.retries; tasks = delete id q.tasks })
  drop-WellFormed id = record {
    positive = h.positive;
    tasks_distinct = Distinct-delete id q.tasks h.tasks_distinct;
    retries_distinct = Distinct-delete id q.retries h.retries_distinct;
    installed_distinct = h.installed_distinct;
    keyed = All-delete _ id q.tasks h.keyed;
    counted = All-delete _ id q.retries h.counted;
    backed = λ j b.
        ground (arith, contains-delete id j q.tasks, contains-delete id j q.retries, h.backed j);
    named = h.named;
  }

  retry-WellFormed :
      (id : ℤ) (r : RetryInfo)
      → contains id q.tasks ≡ true
      → 0 < r.count
      → r.count < q.max_retries
      → WellFormed (record q { retries = insert id r q.retries })
  retry-WellFormed id r pending low high = record {
    positive = h.positive;
    tasks_distinct = h.tasks_distinct;
    retries_distinct = Distinct-insert id r q.retries h.retries_distinct;
    installed_distinct = h.installed_distinct;
    keyed = h.keyed;
    counted = All-insert _ id r q.retries (low, high) h.counted;
    backed = λ j b. ground (arith, contains-insert id j r q.retries, h.backed j, int_beq_iff id j);
    named = h.named;
  }

  record_install-WellFormed :
      (app : ℤ) (v : String)
      → is_positive app ≡ true
      → is_blank v ≡ false
      → WellFormed (record q { installed = insert app v q.installed; apps_changed = true })
  record_install-WellFormed app v a b = record {
    positive = h.positive;
    tasks_distinct = h.tasks_distinct;
    retries_distinct = h.retries_distinct;
    installed_distinct = Distinct-insert app v q.installed h.installed_distinct;
    keyed = h.keyed;
    counted = h.counted;
    backed = h.backed;
    named = All-insert _ app v q.installed (a, b) h.named;
  }

  pub handle_failure-WellFormed :
      (now : ℕ) (id : ℤ) → contains id q.tasks ≡ true → WellFormed (handle_failure now id q)
  unfolding handle_failure
  handle_failure-WellFormed now id pending =
      elim (Bool-cases (leb q.max_retries (failures (lookup id q.retries) + 1))) [
        | inl out ↦ rw out (drop-WellFormed id)
        | inr more ↦ rw more (retry-WellFormed id _ pending (omega arith) (ground arith))
      ]

or_unknown-not_blank : (v : String) → is_blank (or_unknown v) ≡ false
or_unknown-not_blank String.[] = refl
or_unknown-not_blank (String.◌∷◌ c s) = refl

pub handle_success-WellFormed :
    (q : TaskQueue) → WellFormed q → (c : Command) → WellFormed (handle_success c q)
unfolding handle_success
handle_success-WellFormed q h c = elim (Bool-cases (is_positive c.app_id)) [
  | inl app ↦ rw app (
      record_install-WellFormed _ (drop-WellFormed q h c.task_id) c.app_id
        (or_unknown c.app_version) app (or_unknown-not_blank c.app_version))
  | inr other ↦ rw other (drop-WellFormed q h c.task_id)
]
