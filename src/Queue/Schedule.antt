-- ===== src/Queue/Schedule.antt =====
-- Which task nextRunnable picks: the least runnable one by priority and then by identifier.
use appcenter_agent.Common.{
  ℕ, ◌≡◌, sym, ap, ◌∙◌, subst, ◌↔◌, inl, inr, true, false, none, some, arith, Bool-cases,
  Option-cases, ℤ, int_beq_iff, int_ltb_asymm, int_ltb_neg_trans, int_ltb_antisymm, nat_eq, int_eq,
  string_eq, All, All-map, All-of_map, All-keep_if, All-of_keep_if, All-both,
}
use appcenter_agent.Common.Dict.{lookup, values, All-lookup, lookup_own}
use appcenter_agent.Common.Sort.{head-sort-All, head-sort-none, head-sort-min}
use appcenter_agent.Api.{Command}
use appcenter_agent.Queue.{TaskQueue, is_runnable, precedes, next_runnable}
use appcenter_agent.Queue.Invariant.{WellFormed}

precedes_asymm : (a b : Command) → precedes a b ≡ true → precedes b a ≡ false
unfolding precedes
precedes_asymm a b h = ground (
  arith,
  int_beq_iff a.priority b.priority,
  int_beq_iff b.priority a.priority,
  int_ltb_asymm a.task_id b.task_id,
  int_ltb_asymm a.priority b.priority,
)

precedes_neg_trans :
    (a b c : Command) → precedes b a ≡ false → precedes c b ≡ false → precedes c a ≡ false
unfolding precedes
precedes_neg_trans a b c h k = ground (
  arith,
  int_beq_iff b.priority a.priority,
  int_beq_iff c.priority b.priority,
  int_beq_iff c.priority a.priority,
  int_ltb_neg_trans a.task_id b.task_id c.task_id,
  int_ltb_neg_trans a.priority b.priority c.priority,
  int_ltb_antisymm b.priority a.priority,
)

precedes_antisymm :
    (a b : Command) → precedes a b ≡ false → precedes b a ≡ false → a.task_id ≡ b.task_id
unfolding precedes
precedes_antisymm a b h k = ground (
  arith,
  int_beq_iff a.priority b.priority,
  int_beq_iff b.priority a.priority,
  int_ltb_antisymm a.task_id b.task_id,
  int_ltb_antisymm a.priority b.priority,
)

-- `c` is pending, may run at `now`, and no pending task that may run stands before it
abbrev pub IsNext : TaskQueue → ℕ → Command → Type 0
IsNext q now c =
    (lookup c.task_id q.tasks ≡ some c)
    × (is_runnable q now c ≡ true)
    × ((id : ℤ) (d : Command)
        → lookup id q.tasks ≡ some d
        → is_runnable q now d ≡ true
        → precedes d c ≡ false)

module _ (q : TaskQueue) (now : ℕ) (h : WellFormed q) where
  abbrev Eligible : Command → Type 0
  Eligible c = (lookup c.task_id q.tasks ≡ some c) × (is_runnable q now c ≡ true)

  own_id : All (λ c. lookup c.task_id q.tasks ≡ some c) (values q.tasks)
  own_id =
      All-map _ (λ (a : ℤ × Command). a.1) q.tasks
        (All-both _ _ _ (λ a own key. ap (λ i. lookup i q.tasks) key.0 ∙ own) q.tasks
          (lookup_own q.tasks h.tasks_distinct) h.keyed)

  pub next_runnable-IsNext : (c : Command) → next_runnable q now ≡ some c → IsNext q now c
  unfolding next_runnable
  next_runnable-IsNext c e =
      let picked =
        head-sort-All precedes _ _ (All-keep_if _ (is_runnable q now) (values q.tasks) own_id) e in
      (
        picked.0,
        picked.1,
        λ id d l r.
            All-lookup _ id q.tasks
              (All-of_map _ (λ (a : ℤ × Command). a.1) q.tasks
                (All-of_keep_if _ (is_runnable q now) (values q.tasks)
                  (head-sort-min precedes precedes_asymm precedes_neg_trans _ e)))
              l r,
      )

  pub next_runnable-none :
      next_runnable q now ≡ none
      → (id : ℤ) (d : Command) → lookup id q.tasks ≡ some d
      → is_runnable q now d ≡ false
  unfolding next_runnable
  next_runnable-none e id d l = elim (Bool-cases (is_runnable q now d)) [
    | inl r ↦ absurd (
        All-lookup _ id q.tasks
          (All-of_map _ (λ (a : ℤ × Command). a.1) q.tasks
            (All-of_keep_if (λ _. ⊥) (is_runnable q now) (values q.tasks)
              (subst (All (λ _. ⊥)) (sym (head-sort-none precedes _ e)) tt)))
          l r)
    | inr r ↦ r
  ]

  -- The pick is the only task that is next.
  pub IsNext-next_runnable : (c : Command) → IsNext q now c → next_runnable q now ≡ some c
  IsNext-next_runnable c n = elim (Option-cases (next_runnable q now)) [
    | inl e ↦ cc (n.1, next_runnable-none e c.task_id c n.0)
    | inr (d, e) ↦
        let m = next_runnable-IsNext d e in
        let same : d.task_id ≡ c.task_id =
          precedes_antisymm d c (n.2 d.task_id d m.0 m.1) (m.2 c.task_id c n.0 n.1) in
        e ∙ sym m.0 ∙ ap (λ i. lookup i q.tasks) same ∙ n.0
  ]

-- In a well-formed queue nextRunnable returns a command exactly when that command is pending
-- under its identifier, may run at this time, and no pending task that may run stands before it
-- by priority and then by identifier.
pub next_runnable_iff :
    (q : TaskQueue) (now : ℕ) (c : Command)
    → WellFormed q
    → (next_runnable q now ≡ some c) ↔ IsNext q now c
next_runnable_iff q now c h = (next_runnable-IsNext q now h c, IsNext-next_runnable q now h c)

module _ (p q : TaskQueue) (now : ℕ) (same_tasks : (id : ℤ) → lookup id p.tasks ≡ lookup id q.tasks)
    (same_retries : (id : ℤ) → lookup id p.retries ≡ lookup id q.retries) where
  is_runnable-same : (c : Command) → is_runnable q now c ≡ is_runnable p now c
  unfolding is_runnable
  is_runnable-same c = rw (← same_retries c.task_id, is_runnable)

  IsNext-same : (c : Command) → IsNext q now c → IsNext p now c
  IsNext-same c n = (
    same_tasks c.task_id ∙ n.0,
    sym (is_runnable-same c) ∙ n.1,
    λ id d l r. n.2 id d (sym (same_tasks id) ∙ l) (is_runnable-same d ∙ r),
  )

-- Two well-formed queues whose task and retry maps answer every lookup alike have the same next
-- task, whatever the order in which the maps are walked.
pub next_runnable-order :
    (p q : TaskQueue) (now : ℕ)
    → WellFormed p
    → WellFormed q
    → ((id : ℤ) → lookup id p.tasks ≡ lookup id q.tasks)
    → ((id : ℤ) → lookup id p.retries ≡ lookup id q.retries)
    → next_runnable p now ≡ next_runnable q now
next_runnable-order p q now hp hq tasks retries = elim (Option-cases (next_runnable q now)) [
  | inr (c, e) ↦
      IsNext-next_runnable p now hp c
        (IsNext-same p q now tasks retries c (next_runnable-IsNext q now hq c e))
      ∙ sym e
  | inl e ↦ elim (Option-cases (next_runnable p now)) [
    | inl e' ↦ e' ∙ sym e
    | inr (c, e') ↦ absurd (
        cc (
          e,
          IsNext-next_runnable q now hq c (
              IsNext-same q p now (λ id. sym (tasks id)) (λ id. sym (retries id)) c
                (next_runnable-IsNext p now hp c e')),
        ))
  ]
]
