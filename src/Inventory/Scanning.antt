-- ===== src/Inventory/Scanning.antt =====
-- The inventory over time: the spacing of its scans, and what it submits after any operations.
use appcenter_agent.Common.{
  ℕ, ◌+◌, ◌-◌, ◌*◌, ◌%◌, ◌^◌, ◌≤◌, ◌<◌, String, ◌≡◌, refl, sym, ap, ◌∙◌, subst, ◌⊎◌, inl, inr, Bool,
  true, false, not, Option, none, some, List, [], ◌∷◌, arith, ltb, if◌then◌else◌, nat_beq, lt→ltb,
  Bool-cases, ℤ, pos, is_positive, nat_eq, int_eq, string_eq, length,
}
use mathlib.Core.Option.{some-injective}
use appcenter_agent.Inventory.{
  SoftwareItem, SubmitRequest, Manager, new_manager, set_scan_interval, compute_hash, Scan,
  panicked, returned, text_length, store_scan, force_scan, nanoseconds_per_minute, reaches,
  duration_word, since, scan_if_needed, get_submit_payload, unless_empty, sync_if_requested,
}

-- the calls that change the manager, with what a scan would find and the time
pub data Operation : Type 0 where
  set_interval : ℤ → Operation
  scan_when_due : List SoftwareItem → ℕ → Operation
  scan_now : List SoftwareItem → ℕ → Operation

abbrev pub manager_of : Scan → Option Manager
manager_of panicked = none
manager_of (returned b m) = some m

-- a scan that panics ends the process
abbrev or_crash : Option Manager → (Manager → Option Manager) → Option Manager
or_crash none f = none
or_crash (some m) f = f m

module _ (digest : List SoftwareItem → String) where
  unfoldable pub perform : Operation → Manager → Option Manager
  perform (set_interval minutes) m = some (set_scan_interval minutes m)
  perform (scan_when_due items now) m = manager_of (scan_if_needed digest items now m)
  perform (scan_now items now) m = manager_of (force_scan digest items now m)

  unfoldable pub run : List Operation → Manager → Option Manager
  unfolding perform
  run [] m = some m
  run (op ∷ ops) m = or_crash (perform op m) (run ops)

  -- the hash belongs to the items, once there are any, and the interval is positive
  unfoldable pub IsCurrent : Manager → Type 0
  IsCurrent m =
      (is_positive m.scan_interval_min ≡ true)
      × ((m.last_items ≡ []) ⊎ (m.last_hash ≡ compute_hash digest m.last_items))

  unfoldable pub CrashOr : Option Manager → Type 0
  CrashOr none = Unit
  CrashOr (some m) = IsCurrent m

  pub new_manager-IsCurrent : IsCurrent new_manager
  unfolding new_manager IsCurrent
  new_manager-IsCurrent = (refl, inl refl)

  pub store_scan-CrashOr :
      (items : List SoftwareItem) (now : ℕ) (m : Manager)
      → IsCurrent m
      → CrashOr (manager_of (force_scan digest items now m))
  unfolding force_scan IsCurrent CrashOr
  store_scan-CrashOr items now m h =
      elim (Bool-cases (ltb (text_length (compute_hash digest items)) 12)) [
        | inl e ↦ rw e tt
        | inr e ↦ rw e (h.0, inr refl)
      ]

  pub scan_if_needed-CrashOr :
      (items : List SoftwareItem) (now : ℕ) (m : Manager)
      → IsCurrent m
      → CrashOr (manager_of (scan_if_needed digest items now m))
  unfolding scan_if_needed IsCurrent CrashOr
  scan_if_needed-CrashOr items now m h =
      elim (Bool-cases (reaches (since m.last_scan_time now) (duration_word m.scan_interval_min))) [
        | inl e ↦ rw e (store_scan-CrashOr items now m h)
        | inr e ↦ rw e h
      ]

  perform-CrashOr : (op : Operation) (m : Manager) → IsCurrent m → CrashOr (perform op m)
  unfolding perform set_scan_interval IsCurrent CrashOr
  perform-CrashOr (set_interval minutes) m h = elim (Bool-cases (is_positive minutes)) [
    | inl e ↦ rw e (e, h.1)
    | inr e ↦ rw e h
  ]
  perform-CrashOr (scan_when_due items now) m h = scan_if_needed-CrashOr items now m h
  perform-CrashOr (scan_now items now) m h = store_scan-CrashOr items now m h

  or_crash-CrashOr :
      (o : Option Manager) (f : Manager → Option Manager)
      → CrashOr o
      → ((m : Manager) → IsCurrent m → CrashOr (f m))
      → CrashOr (or_crash o f)
  unfolding CrashOr
  or_crash-CrashOr none f h k = tt
  or_crash-CrashOr (some m) f h k = k m h

  run-CrashOr : (ops : List Operation) (m : Manager) → IsCurrent m → CrashOr (run ops m)
  unfolding run CrashOr
  run-CrashOr [] m h = h
  run-CrashOr (op ∷ ops) m h =
      or_crash-CrashOr (perform op m) (run ops) (perform-CrashOr op m h) (run-CrashOr ops)

  of_IsCurrent : (m : Manager) → CrashOr (some m) → IsCurrent m
  unfolding CrashOr
  of_IsCurrent m h = h

  unfoldable pub Filled : SubmitRequest → Type 0
  Filled p =
      (p.inventory_hash ≡ compute_hash digest p.items)
      × (p.software_count ≡ length p.items)
      × (1 ≤ p.software_count)

  pub payload-Filled :
      (m : Manager) {p : SubmitRequest}
      → IsCurrent m
      → unless_empty (get_submit_payload m) ≡ some p
      → Filled p
  unfolding get_submit_payload IsCurrent Filled
  payload-Filled m {p} h e = elim (Bool-cases (nat_beq (length m.last_items) 0)) [
    | inl none_found ↦ let clash : none ≡ some p = rw none_found at e in cc
    | inr some_found ↦
        let payload : some (get_submit_payload m) ≡ some p = rw some_found at e in
        let long : 1 ≤ length m.last_items = ground arith in
        subst Filled (some-injective _ _ payload) (elim h.1 [
          | inl empty ↦ absurd (let q = ap length empty in omega (arith, q, long))
          | inr hashed ↦ (hashed, refl, long)
        ])
  ]

  pub sync-Filled :
      (required : Bool) (m : Manager) {p : SubmitRequest}
      → IsCurrent m
      → sync_if_requested required m ≡ some p
      → Filled p
  unfolding sync_if_requested
  sync-Filled true m h q = payload-Filled m h q
  sync-Filled false m h q = cc

  -- From a new manager, after any changes of the interval and any scans that did not panic,
  -- whatever is submitted carries the hash of its own items, their number, and at least one
  -- item.
  submitted :
      (ops : List Operation) (required : Bool) {m : Manager} {p : SubmitRequest}
      → run ops new_manager ≡ some m
      → sync_if_requested required m ≡ some p
      → (p.inventory_hash ≡ compute_hash digest p.items)
        × (p.software_count ≡ length p.items)
        × (1 ≤ p.software_count)
  unfolding Filled
  submitted ops required {m} e q =
      let current = subst CrashOr e (run-CrashOr ops new_manager new_manager-IsCurrent) in
      sync-Filled required m (of_IsCurrent m current) q

  time_of : Scan → Option ℕ
  time_of panicked = none
  time_of (returned b m) = m.last_scan_time

  scanned_at :
      (hash : String) (items : List SoftwareItem) (now : ℕ) (m : Manager) {m' : Manager}
      → store_scan hash items now m ≡ returned true m'
      → m'.last_scan_time ≡ some now
  unfolding time_of
  scanned_at hash items now m e = elim (Bool-cases (ltb (text_length hash) 12)) [
    | inl short ↦ let clash : panicked ≡ returned true _ = rw short at e in cc
    | inr long ↦
        let same : returned true _ ≡ returned true _ = rw long at e in sym (ap time_of same)
  ]

  small_word : (k : ℕ) → k < 2 ^ 63 → k % 2 ^ 64 ≡ k
  small_word k h = omega (arith, h)

  reaches_small :
      (k now later : ℕ)
      → 1 ≤ k
      → k < 2 ^ 63
      → reaches (later - now) (k % 2 ^ 64) ≡ not (ltb later (now + k))
  reaches_small k now later positive h = rw (small_word k h) (ground arith)

  interval_set :
      (n : ℕ) (m : Manager)
      → 1 ≤ n
      → ((set_scan_interval (pos n) m).scan_interval_min ≡ pos n)
        × ((set_scan_interval (pos n) m).last_scan_time ≡ m.last_scan_time)
  unfolding set_scan_interval
  interval_set n m h = rw (lt→ltb 0 n h) (refl, refl)

  due_after :
      (found : List SoftwareItem) (n now later : ℕ) (m : Manager)
      → 1 ≤ n
      → n * nanoseconds_per_minute < 2 ^ 63
      → m.last_scan_time ≡ some now
      → m.scan_interval_min ≡ pos n
      → scan_if_needed digest found later m ≡ (
          if ltb later (now + n * nanoseconds_per_minute)
          then returned false m
          else force_scan digest found later m)
  unfolding scan_if_needed
  due_after found n now later m positive h last interval =
      simp
        (
          last,
          interval,
          reaches_small (n * nanoseconds_per_minute) now later (omega (arith, positive)) h,
        )
        (ground arith)

  -- After a forced scan that found something, and once the server has set an interval of at
  -- least one minute whose nanoseconds stay below two to the power of 63, ScanIfNeeded leaves
  -- the manager as it is before that interval has passed, and does what ForceScan does from then
  -- on.
  pub scan_spacing :
      (item : SoftwareItem) (items found : List SoftwareItem) (n now later : ℕ) (m : Manager)
      {m' : Manager}
      → force_scan digest (item ∷ items) now m ≡ returned true m'
      → 1 ≤ n
      → n * nanoseconds_per_minute < 2 ^ 63
      → scan_if_needed digest found later (set_scan_interval (pos n) m') ≡ (
          if ltb later (now + n * nanoseconds_per_minute)
          then returned false (set_scan_interval (pos n) m')
          else force_scan digest found later (set_scan_interval (pos n) m'))
  unfolding force_scan
  scan_spacing item items found n now later m {m'} e positive h =
      let kept = interval_set n m' positive in
      due_after found n now later (set_scan_interval (pos n) m') positive h
        (kept.1 ∙ scanned_at (compute_hash digest (item ∷ items)) (item ∷ items) now m e) kept.0
