-- ===== src/Heartbeat/Services.antt =====
-- Which list of services, and which hash, a heartbeat carries.
use appcenter_agent.Common.{
  ℕ, ◌≤◌, String, ◌≡◌, refl, ap, ◌∙◌, ◌⊎◌, inl, inr, Bool, true, false, not, ◌||◌, Option, none,
  some, List, [], ◌∷◌, arith, eq_iff, Bool-cases, ◌==◌, nat_eq, int_eq, string_eq, is_blank,
  keep_if, All,
}
use appcenter_agent.Heartbeat.{
  ServiceItem, Sender, ServicesPart, interval_of, is_due, need_collect, attach_rows,
  maybe_attach_services,
}

abbrev pub Carried :
    (List ServiceItem → String) → Sender → Sender → String → Option (List ServiceItem) → Type 0
Carried hash_services s s' hash none =
    (s' ≡ s) × ((is_blank hash ≡ true) ⊎ (hash ≡ s.services_last_hash))
Carried hash_services s s' hash (some items) =
    (hash ≡ hash_services items)
    × (s'.services_last_hash ≡ hash_services items)
    × All (λ r. is_blank r.name ≡ false) items

abbrev pub Reported : (List ServiceItem → String) → Sender → ServicesPart × Sender → Type 0
Reported hash_services s r = Carried hash_services s r.1 r.0.services_hash r.0.services

named : (r : ServiceItem) → not (is_blank r.name) ≡ true → is_blank r.name ≡ false
named r e = ground arith

All-named :
    (rows : List ServiceItem)
    → All (λ r. is_blank r.name ≡ false) (keep_if (λ r. not (is_blank r.name)) rows)
All-named [] = tt
All-named (r ∷ rows) = elim (Bool-cases (is_blank r.name)) [
  | inl e ↦ rw e (All-named rows)
  | inr e ↦ rw e (e, All-named rows)
]

rows-Reported :
    (hash_services : List ServiceItem → String) (s : Sender) (now : ℕ)
    (rows : Option (List ServiceItem))
    → Reported hash_services s (attach_rows hash_services s now rows)
rows-Reported hash_services s now none = (refl, inr refl)
rows-Reported hash_services s now (some rows) =
    let items = keep_if (λ r. not (is_blank r.name)) rows in
    elim (Bool-cases
      (s.services_sync_needed || not (hash_services items == s.services_last_hash))) [
        | inl e ↦ rw e (refl, refl, All-named rows)
        | inr e ↦ rw e (
          refl,
          inr (
              (eq_iff (hash_services items) s.services_last_hash).0
                (same s.services_sync_needed (hash_services items == s.services_last_hash) e)),
        )
      ]
  where
    same : (a b : Bool) → a || not b ≡ false → b ≡ true
    same a b e = ground arith

-- A heartbeat that carries a list of services carries its hash, all of the services have names,
-- and the sender keeps the hash; one without a list leaves the sender as it was, and its hash,
-- if there is one, is the hash that the sender keeps.
pub services-Reported :
    (hash_services : List ServiceItem → String) (s : Sender) (now : ℕ)
    (rows : Option (List ServiceItem))
    → Reported hash_services s (maybe_attach_services hash_services s now rows)
unfolding maybe_attach_services
services-Reported hash_services s now rows = elim (Bool-cases s.services_enabled) [
  | inl e ↦ elim (Bool-cases (need_collect s now)) [
    | inl e' ↦ simp (e, e') (rows-Reported hash_services s now rows)
    | inr e' ↦ simp (e, e') (refl, inr refl)
  ]
  | inr e ↦ simp e (refl, inl refl)
]

due_later :
    (now later interval : ℕ) (sent : Option ℕ)
    → now ≤ later
    → is_due now interval sent ≡ true
    → is_due later interval sent ≡ true
due_later now later interval none h e = refl
due_later now later interval (some t) h e = ground arith

still_due :
    (s : Sender) (now : ℕ)
    → is_due now (interval_of s.services_interval_min) s.services_last_sent ≡ true
    → need_collect s now ≡ true
unfolding need_collect
still_due s now e = rest s.services_sync_needed (is_blank s.services_last_hash) _ e
  where
    rest : (a b c : Bool) → c ≡ true → a || b || c ≡ true
    rest a b c h = ground arith

nothing_new :
    (hash_services : List ServiceItem → String) (s : Sender) (now : ℕ) (rows : List ServiceItem)
    → s.services_sync_needed ≡ false
    → hash_services (keep_if (λ r. not (is_blank r.name)) rows) == s.services_last_hash ≡ true
    → (maybe_attach_services hash_services s now (some rows)).1 ≡ s
unfolding maybe_attach_services
nothing_new hash_services s now rows quiet same = elim (Bool-cases s.services_enabled) [
  | inl e ↦
      elim (Bool-cases (
        is_blank s.services_last_hash
        || is_due now (interval_of s.services_interval_min) s.services_last_sent)) [
          | inl e' ↦ simp (e, e', quiet, same)
          | inr e' ↦ simp (e, e', quiet)
        ]
  | inr e ↦ simp e
]

-- Once the interval is over and a collection finds the services unchanged, every later heartbeat
-- collects them again while nothing else changes: the time of the sender is not renewed.
pub unchanged_collects_again :
    (hash_services : List ServiceItem → String) (s : Sender) (now later : ℕ)
    (rows : List ServiceItem)
    → now ≤ later
    → s.services_sync_needed ≡ false
    → is_due now (interval_of s.services_interval_min) s.services_last_sent ≡ true
    → hash_services (keep_if (λ r. not (is_blank r.name)) rows) ≡ s.services_last_hash
    → ((maybe_attach_services hash_services s now (some rows)).1 ≡ s)
      × (need_collect (maybe_attach_services hash_services s now (some rows)).1 later ≡ true)
unfolding maybe_attach_services
unchanged_collects_again hash_services s now later rows h quiet due same =
    let kept = nothing_new hash_services s now rows quiet (
      (eq_iff (hash_services (keep_if (λ r. not (is_blank r.name)) rows)) s.services_last_hash).1
        same) in
    (
      kept,
      ap (λ x. need_collect x later) kept
          ∙ still_due s later (due_later now later _ s.services_last_sent h due),
    )
