-- ===== src/Queue/Apps.antt =====
-- What ConsumeAppsChanged hands to a heartbeat.
use appcenter_agent.Common.{
  or_empty, String, ◌≡◌, refl, ◌∙◌, Bool, true, false, ◌||◌, Option, none, some, List, [], ◌∷◌, map,
  arith, if◌then◌else◌, ℤ, int_ltb, is_positive, int_beq_iff, int_ltb_asymm, int_ltb_neg_trans,
  ◌==◌, nat_eq, int_eq, string_eq,
}
use appcenter_agent.Common.Dict.{
  Dict, lookup, contains, keys, insert, delete, lookup-insert_self, lookup-delete_self,
}
use appcenter_agent.Common.Sort.{place, sort, IsSorted, sort-IsSorted}
use appcenter_agent.Api.{Command, InstalledApp}
use appcenter_agent.Queue.{TaskQueue, consume_apps_changed, handle_success, or_unknown, version_of}

-- after an install the next call reports it
-- the version that a report gives for an app
abbrev pub listed : ℤ → List InstalledApp → Option String
listed id [] = none
listed id (a ∷ rest) = if a.app_id == id then some a.version else listed id rest

elem : ℤ → List ℤ → Bool
elem id [] = false
elem id (k ∷ ks) = k == id || elem id ks

elem-place : (id k : ℤ) (ks : List ℤ) → elem id (place int_ltb k ks) ≡ (k == id || elem id ks)
unfolding elem place
elem-place id k [] = refl
elem-place id k (j ∷ ks) = ground (arith, elem-place id k ks)

elem-sort : (id : ℤ) (ks : List ℤ) → elem id (sort int_ltb ks) ≡ elem id ks
unfolding elem sort
elem-sort id [] = refl
elem-sort id (k ∷ ks) = rw (elem-place id k (sort int_ltb ks), elem-sort id ks)

elem-keys : (id : ℤ) (m : Dict ℤ String) → elem id (keys m) ≡ contains id m
unfolding elem lookup
elem-keys id [] = refl
elem-keys id ((k, v) ∷ m) = ground (arith, elem-keys id m)

module _ (q : TaskQueue) where
  listed-map :
      (id : ℤ) (ks : List ℤ)
      → listed id (map (version_of q) ks)
        ≡ (if elem id ks then some (or_empty (lookup id q.installed)) else none)
  unfolding elem version_of
  listed-map id [] = refl
  listed-map id (k ∷ ks) = ground (arith, listed-map id ks, int_beq_iff k id)

  listed_installed :
      (id : ℤ)
      → listed id (map (version_of q) (sort int_ltb (keys q.installed))) ≡ lookup id q.installed
  listed_installed id = ground (
    arith,
    listed-map id (sort int_ltb (keys q.installed)),
    elem-sort id (keys q.installed),
    elem-keys id q.installed,
  )

  ids-map : (ks : List ℤ) → map (λ a. a.app_id) (map (version_of q) ks) ≡ ks
  unfolding version_of
  ids-map [] = refl
  ids-map (k ∷ ks) = rw (ids-map ks)

  ascending :
      IsSorted int_ltb int_ltb_asymm int_ltb_neg_trans
        (map (λ a. a.app_id) (map (version_of q) (sort int_ltb (keys q.installed))))
  ascending = rw ids-map (sort-IsSorted int_ltb int_ltb_asymm int_ltb_neg_trans (keys q.installed))

  -- When apps have changed, ConsumeAppsChanged reports true and a list that gives each app
  -- exactly the version of the installed map, in ascending order of the identifiers; the next
  -- call reports nothing and the installed map is kept.
  pub consume_changed :
      q.apps_changed ≡ true
      → let (out, q') = consume_apps_changed q in
        (out.0 ≡ true)
        × ((id : ℤ) → listed id out.1 ≡ lookup id q.installed)
        × IsSorted int_ltb int_ltb_asymm int_ltb_neg_trans (map (λ a. a.app_id) out.1)
        × ((consume_apps_changed q').0 ≡ (false, []))
        × (q'.installed ≡ q.installed)
  unfolding consume_apps_changed
  consume_changed e = simp e (refl, listed_installed, ascending, refl, refl)

-- After handleSuccess of a command with a positive app identifier the task is no longer pending,
-- and the next ConsumeAppsChanged reports the app with the version of the command, or unknown if
-- that is empty.
pub success_announced :
    (q : TaskQueue) (c : Command)
    → is_positive c.app_id ≡ true
    → let q' = handle_success c q in
      (lookup c.task_id q'.tasks ≡ none)
      × ((consume_apps_changed q').0.0 ≡ true)
      × (listed c.app_id (consume_apps_changed q').0.1 ≡ some (or_unknown c.app_version))
unfolding handle_success
success_announced q c h =
    let q' = record q {
      tasks = delete c.task_id q.tasks;
      retries = delete c.task_id q.retries;
      installed = insert c.app_id (or_unknown c.app_version) q.installed;
      apps_changed = true;
    } in
    let report = consume_changed q' refl in
    rw h (
      lookup-delete_self c.task_id q.tasks,
      report.0,
      report.1 c.app_id ∙ lookup-insert_self c.app_id (or_unknown c.app_version) q.installed,
    )
