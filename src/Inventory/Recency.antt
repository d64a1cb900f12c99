-- ===== src/Inventory/Recency.antt =====
-- How old a list of packages can be that is taken from the cache.
use appcenter_agent.Common.{
  ℕ, ◌+◌, ◌-◌, ◌≤◌, ◌<◌, ◌≡◌, refl, sym, subst, ◌≢◌, ◌⊎◌, inl, inr, Bool, true, false, Option, none,
  some, List, [], ◌∷◌, arith, nat_beq, Bool-cases, nat_eq, int_eq, string_eq, length,
}
use appcenter_agent.Inventory.{SoftwareItem}
use appcenter_agent.Inventory.Appx.{AppxPkg, appx_items}
use appcenter_agent.Inventory.AppxCache.{
  AppxCache, second, appx_cache_max_age, is_stale, from_file, get_appx_cache, to_second,
  set_appx_cache, or_nothing, or_cached, scan_appx_packages_all_users,
}

-- a query of the packages, with its time, or a restart of the service, which keeps the file
pub data Event : Type 0 where
  query : Bool → ℕ → Option (List AppxPkg) → Event
  restart : Event

-- the time and the items of the queries that found any
abbrev pub History : Type 0
History = List (ℕ × List SoftwareItem)

abbrev pub recorded : ℕ → List SoftwareItem → History → History
recorded now [] log = log
recorded now (item ∷ items) log = (now, item ∷ items) ∷ log

abbrev pub found_items : Option (List AppxPkg) → List SoftwareItem
found_items none = []
found_items (some many) = appx_items many

unfoldable pub after : Event → AppxCache × History → AppxCache × History
after (query writable now output) (c, log) =
    ((scan_appx_packages_all_users writable now output c).1, recorded now (found_items output) log)
after restart (c, log) = (record c { items = []; updated_at = 0 }, log)

unfoldable pub run : List Event → AppxCache × History → AppxCache × History
unfolding after
run [] s = s
run (e ∷ es) s = run es (after e s)

-- some query of the history found these items, at most a second after the stamp
abbrev pub Known : ℕ → List SoftwareItem → History → Type 0
Known t items [] = ⊥
Known t items (e ∷ log) = ((e.1 ≡ items) × (t ≤ e.0) × (e.0 < t + second)) ⊎ Known t items log

Kept : AppxCache → History → Type 0
Kept c log =
    ((c.items ≡ []) ⊎ Known c.updated_at c.items log)
    × ((c.file ≡ none)
        ⊎ ((t : ℕ) × (items : List SoftwareItem) × (c.file
              ≡ some (record { updated_at = some t; items = items }))
            × Known t items log))

-- what is reused is known, and no older than the limit
Recent : ℕ → Option (List SoftwareItem) → History → Type 0
Recent now none log = Unit
Recent now (some items) log = (t : ℕ) × Known t items log × (now - t ≤ appx_cache_max_age)

Served : ℕ → History → Option (List SoftwareItem) × AppxCache → Type 0
Served now log reply = Recent now reply.0 log × Kept reply.1 log

fresh_age : (now t : ℕ) → is_stale now t ≡ false → now - t ≤ appx_cache_max_age
fresh_age now t h = ground arith

filled-ne-nil : (xs : List SoftwareItem) → nat_beq (length xs) 0 ≡ false → xs ≢ []
filled-ne-nil [] h = cc
filled-ne-nil (x ∷ xs) h = λ e. cc

filled-Known :
    (t : ℕ) (items : List SoftwareItem) (log : History)
    → nat_beq (length items) 0 ≡ false
    → (items ≡ []) ⊎ Known t items log
    → Known t items log
filled-Known t items log filled (inl e) = absurd (filled-ne-nil items filled e)
filled-Known t items log filled (inr h) = h

file-Served :
    (now t : ℕ) (items : List SoftwareItem) (c : AppxCache) (log : History)
    → Kept c log
    → c.file ≡ some (record { updated_at = some t; items = items })
    → Known t items log
    → Served now log (from_file now c (some (record { updated_at = some t; items = items })))
unfolding Kept Recent Served
file-Served now t items c log h e known = elim (Bool-cases (nat_beq (length items) 0)) [
  | inl empty ↦ rw empty (tt, h)
  | inr filled ↦ elim (Bool-cases (is_stale now t)) [
    | inl stale ↦ rw (filled, stale) (tt, h)
    | inr fresh ↦ rw (filled, fresh) ((t, known, fresh_age now t fresh), (inr known, h.1))
  ]
]

get-Served :
    (now : ℕ) (c : AppxCache) (log : History) → Kept c log → Served now log (get_appx_cache now c)
unfolding get_appx_cache Kept Recent Served
get-Served now c log h = elim (Bool-cases (nat_beq (length c.items) 0)) [
  | inl e ↦ rw e (elim h.1 [
    | inl absent ↦ subst (λ o. Served now log (from_file now c o)) (sym absent) (tt, h)
    | inr (t, items, stored, known) ↦
        subst (λ o. Served now log (from_file now c o)) (sym stored)
          (file-Served now t items c log h stored known)
  ])
  | inr e ↦ elim (Bool-cases (is_stale now c.updated_at)) [
    | inl stale ↦ rw (e, stale) (tt, h)
    | inr fresh ↦
        rw (e, fresh)
          (
            (
              c.updated_at,
              filled-Known c.updated_at c.items log e h.0,
              fresh_age now c.updated_at fresh,
            ),
            h,
          )
  ]
]

-- a stamp of the file is the time of the query without its fraction of a second
stamp_near : (now : ℕ) → (to_second now ≤ now) × (now < to_second now + second)
stamp_near now = (omega arith, omega arith)

set-Kept :
    (writable : Bool) (now : ℕ) (items : List SoftwareItem) (c : AppxCache) (log : History)
    → Kept c log
    → Kept (set_appx_cache writable now items c) ((now, items) ∷ log)
unfolding set_appx_cache Kept
set-Kept true now items c log h = (
  inr (inl (refl, omega arith, omega arith)),
  inr (to_second now, items, refl, inl (refl, (stamp_near now).0, (stamp_near now).1)),
)
set-Kept false now items c log h = (
  inr (inl (refl, omega arith, omega arith)),
  elim h.1 [
    | inl absent ↦ inl absent
    | inr (t, old, stored, known) ↦ inr (t, old, stored, inr known)
  ],
)

or_cached-Kept :
    (writable : Bool) (now : ℕ) (items : List SoftwareItem) (c : AppxCache) (log : History)
    → Kept c log
    → Kept (or_cached writable now c items).1 (recorded now items log)
unfolding Served
or_cached-Kept writable now [] c log h = (get-Served now c log h).1
or_cached-Kept writable now (item ∷ items) c log h = set-Kept writable now (item ∷ items) c log h

-- what a scan reports that finds some items of its own
abbrev pub IsRecent : ℕ → List SoftwareItem → List SoftwareItem → History → Type 0
IsRecent now found reply log =
    (reply ≡ found)
    ⊎ ((found ≡ []) × ((t : ℕ) × Known t reply log × (now - t ≤ appx_cache_max_age)))

or_nothing-IsRecent :
    (now : ℕ) (o : Option (List SoftwareItem)) (log : History)
    → Recent now o log
    → IsRecent now [] (or_nothing o) log
unfolding Recent
or_nothing-IsRecent now none log h = inl refl
or_nothing-IsRecent now (some items) log h = inr (refl, h)

or_cached-IsRecent :
    (writable : Bool) (now : ℕ) (items : List SoftwareItem) (c : AppxCache) (log : History)
    → Kept c log
    → IsRecent now items (or_cached writable now c items).0 log
unfolding Served
or_cached-IsRecent writable now [] c log h =
    or_nothing-IsRecent now (get_appx_cache now c).0 log (get-Served now c log h).0
or_cached-IsRecent writable now (item ∷ items) c log h = inl refl

scan-or_cached :
    (writable : Bool) (now : ℕ) (output : Option (List AppxPkg)) (c : AppxCache)
    → or_cached writable now c (found_items output)
      ≡ scan_appx_packages_all_users writable now output c
unfolding scan_appx_packages_all_users
scan-or_cached writable now none c = refl
scan-or_cached writable now (some many) c = refl

after-Kept :
    (e : Event) (c : AppxCache) (log : History)
    → Kept c log
    → Kept (after e (c, log)).0 (after e (c, log)).1
unfolding after Kept
after-Kept (query writable now output) c log h =
    subst (λ r. Kept r.1 (recorded now (found_items output) log))
      (scan-or_cached writable now output c)
      (or_cached-Kept writable now (found_items output) c log h)
after-Kept restart c log h = (inl refl, h.1)

run-Kept :
    (es : List Event) (s : AppxCache × History) → Kept s.0 s.1 → Kept (run es s).0 (run es s).1
unfolding run
run-Kept [] s h = h
run-Kept (e ∷ es) s h = run-Kept es (after e s) (after-Kept e s.0 s.1 h)

-- no cache and no file
abbrev pub no_cache : AppxCache × History
no_cache = (record { items = []; updated_at = 0; file = none }, [])

no_cache-Kept : Kept no_cache.0 no_cache.1
unfolding Kept
no_cache-Kept = (inl refl, inl refl)

-- From no cache and no file, after any queries and restarts, a query reports the packages that
-- it finds itself, or, if it finds none, a list that an earlier query found, which the cache
-- dates at most a second before that query and takes for at most twelve hours old.
pub scan-IsRecent :
    (es : List Event) (writable : Bool) (now : ℕ) (output : Option (List AppxPkg))
    → IsRecent now
        (found_items output)
        (scan_appx_packages_all_users writable now output (run es no_cache).0).0
        (run es no_cache).1
scan-IsRecent es writable now output =
    subst (λ r. IsRecent now (found_items output) r.0 (run es no_cache).1)
      (scan-or_cached writable now output (run es no_cache).0)
      (or_cached-IsRecent writable now (found_items output) (run es no_cache).0 (run es no_cache).1
        (run-Kept es no_cache no_cache-Kept))
