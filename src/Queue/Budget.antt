-- ===== src/Queue/Budget.antt =====
-- Each call of ProcessOne that runs a task uses up an attempt, so the loop of processCommands ends.
use appcenter_agent.Common.{
  ℕ, ◌+◌, ◌-◌, ◌*◌, ◌≤◌, ◌<◌, String, ◌≡◌, refl, ◌∙◌, inl, inr, true, false, not, ◌&&◌, Option,
  none, some, [], ◌∷◌, arith, ltb, leb, Bool-cases, Option-cases, ℤ, int_beq, is_positive,
  int_beq_iff, nat_eq, int_eq, string_eq, length,
}
use appcenter_agent.Common.Dict.{
  Dict, lookup, contains, insert, delete, lookup-insert, lookup-delete, All-lookup,
}
use appcenter_agent.Api.{Command}
use appcenter_agent.Queue.{
  ExecutionResult, RetryInfo, TaskQueue, pending_count, consume_apps_changed, next_runnable,
  failures, handle_failure, handle_success, Round, meanwhile, complete, process_one,
}
use appcenter_agent.Queue.Invariant.{
  WellFormed, consume-WellFormed, handle_failure-WellFormed, handle_success-WellFormed,
}
use appcenter_agent.Queue.Schedule.{next_runnable-IsNext}

-- attempts that a task has left, by its failures so far
abbrev pub left : TaskQueue → ℤ → ℕ
left q id = q.max_retries - failures (lookup id q.retries)

total {ℓ} : {V : Type ℓ} → (ℤ → ℕ) → Dict ℤ V → ℕ
total w [] = 0
total w ((k, v) ∷ m) = w k + total w m

-- attempts that the pending tasks have left, together
pub budget : TaskQueue → ℕ
unfolding total
budget q = total (left q) q.tasks

module _ {ℓ} {V : Type ℓ} (k : ℤ) (v w : ℤ → ℕ)
    (agrees : (j : ℤ) → int_beq j k ≡ false → v j ≡ w j) where
  total-delete-le : (m : Dict ℤ V) → total v (delete k m) ≤ total w m
  unfolding total delete
  total-delete-le [] = omega arith
  total-delete-le ((j, a) ∷ m) = ground (arith, total-delete-le m, agrees j)

  total-delete : (m : Dict ℤ V) → contains k m ≡ true → 0 < w k → total v (delete k m) < total w m
  unfolding total delete lookup
  total-delete [] h p = cc
  total-delete ((j, a) ∷ m) h p =
      ground (arith, total-delete-le m, total-delete m, agrees j, int_beq_iff j k)

  total-le : (m : Dict ℤ V) → v k < w k → total v m ≤ total w m
  unfolding total
  total-le [] p = omega arith
  total-le ((j, a) ∷ m) p = ground (arith, total-le m p, agrees j, int_beq_iff j k)

  total-less : (m : Dict ℤ V) → contains k m ≡ true → v k < w k → total v m < total w m
  unfolding total lookup
  total-less [] h p = cc
  total-less ((j, a) ∷ m) h p = ground (
    arith,
    total-le m p,
    (λ (q : contains k m ≡ true). total-less m q p),
    agrees j,
    int_beq_iff j k,
  )

module _ (q : TaskQueue) (h : WellFormed q) where
  left-pos : (id : ℤ) → 0 < left q id
  left-pos id = elim (Option-cases (lookup id q.retries)) [
    | inl e ↦ rw e (omega (arith, h.positive))
    | inr (r, e) ↦ rw e (omega (arith, (All-lookup _ id q.retries h.counted e).1))
  ]

  left-delete :
      (id j : ℤ)
      → int_beq j id ≡ false
      → q.max_retries - failures (lookup j (delete id q.retries)) ≡ left q j
  left-delete id j n =
      ground (arith, lookup-delete id j q.retries, int_beq_iff id j, int_beq_iff j id)

  budget-drop :
      (id : ℤ)
      → contains id q.tasks ≡ true
      → budget (record q { retries = delete id q.retries; tasks = delete id q.tasks }) < budget q
  unfolding budget
  budget-drop id pending = total-delete id _ (left q) (left-delete id) q.tasks pending (left-pos id)

  left-insert :
      (id j : ℤ) (r : RetryInfo)
      → int_beq j id ≡ false
      → q.max_retries - failures (lookup j (insert id r q.retries)) ≡ left q j
  left-insert id j r n =
      ground (arith, lookup-insert id j r q.retries, int_beq_iff id j, int_beq_iff j id)

  budget-retry :
      (id : ℤ) (r : RetryInfo)
      → contains id q.tasks ≡ true
      → r.count ≡ failures (lookup id q.retries) + 1
      → budget (record q { retries = insert id r q.retries }) < budget q
  unfolding budget
  budget-retry id r pending e =
      total-less id _ (left q) (λ j n. left-insert id j r n) q.tasks pending
        (ground (arith, lookup-insert id id r q.retries, int_beq_iff id id, left-pos id))

  budget-failure :
      (now : ℕ) (id : ℤ) → contains id q.tasks ≡ true → budget (handle_failure now id q) < budget q
  unfolding handle_failure
  budget-failure now id pending =
      elim (Bool-cases (leb q.max_retries (failures (lookup id q.retries) + 1))) [
        | inl out ↦ rw out (budget-drop id pending)
        | inr more ↦ rw more (budget-retry id _ pending refl)
      ]

  budget-success :
      (c : Command) → contains c.task_id q.tasks ≡ true → budget (handle_success c q) < budget q
  unfolding handle_success
  budget-success c pending = elim (Bool-cases (is_positive c.app_id)) [
    | inl app ↦ rw app (unfold budget in budget-drop c.task_id pending)
    | inr other ↦ rw other (budget-drop c.task_id pending)
  ]

-- The heartbeat's ConsumeAppsChanged leaves tasks and retries alone.
meanwhile-WellFormed : (r : Round) (q : TaskQueue) → WellFormed q → WellFormed (meanwhile r q)
meanwhile-WellFormed r q h = elim (Bool-cases r.consumed) [
  | inl e ↦ rw e (consume-WellFormed q h)
  | inr e ↦ rw e h
]

budget-meanwhile : (r : Round) (q : TaskQueue) → budget (meanwhile r q) ≡ budget q
unfolding budget consume_apps_changed
budget-meanwhile r q = ground arith

contains-meanwhile :
    (r : Round) (q : TaskQueue) (id : ℤ) → contains id (meanwhile r q).tasks ≡ contains id q.tasks
unfolding consume_apps_changed
contains-meanwhile r q id = ground arith

module _ (r : Round) (q : TaskQueue) (h : WellFormed q) where
  abbrev calm : TaskQueue
  calm = meanwhile r q

  complete-less :
      (c : Command) (x : ExecutionResult × Option String)
      → contains c.task_id q.tasks ≡ true
      → (budget (complete r c x q).queue < budget q) × WellFormed (complete r c x q).queue
  unfolding complete
  complete-less c (result, none) pending =
      let p = contains-meanwhile r q c.task_id ∙ pending in
      let ok = meanwhile-WellFormed r q h in
      (
        omega (arith, budget-success calm ok c p, budget-meanwhile r q),
        handle_success-WellFormed calm ok c,
      )
  complete-less c (result, some err) pending =
      let p = contains-meanwhile r q c.task_id ∙ pending in
      let ok = meanwhile-WellFormed r q h in
      (
        omega (arith, budget-failure calm ok r.failed_at c.task_id p, budget-meanwhile r q),
        handle_failure-WellFormed calm ok r.failed_at c.task_id p,
      )

  -- On a well-formed queue, a call of ProcessOne that processes a task leaves strictly fewer
  -- attempts to the pending tasks together, and every call leaves a well-formed queue.
  pub process_one-less :
      ((process_one r q).processed ≡ true → budget (process_one r q).queue < budget q)
      × WellFormed (process_one r q).queue
  unfolding process_one
  process_one-less = elim (Option-cases (next_runnable q r.now)) [
    | inl e ↦ rw (e, process_one) (λ p. cc, h)
    | inr (c, e) ↦
        let pending : contains c.task_id q.tasks ≡ true =
          rw (next_runnable-IsNext q r.now h c e).0 refl in
        let less = complete-less c (r.execute c) pending in
        elim (Bool-cases (not c.force_update && (ltb 0 r.jitter && r.cancelled))) [
          | inl stop ↦ rw (e, process_one, stop) (λ p. cc, h)
          | inr go ↦ rw (e, process_one, go) (λ _. less.0, less.1)
        ]
  ]

total-bound {ℓ} :
    {V : Type ℓ} (w : ℤ → ℕ) (b : ℕ) (m : Dict ℤ V) → ((j : ℤ) → w j ≤ b) → total w m ≤ b * length m
unfolding total
total-bound w b [] h = omega arith
total-bound w b ((k, v) ∷ m) h = grind (arith, h k, total-bound w b m h)

pub budget-le : (q : TaskQueue) → budget q ≤ q.max_retries * pending_count q
unfolding budget pending_count
budget-le q = total-bound (left q) q.max_retries q.tasks (λ j. omega arith)
