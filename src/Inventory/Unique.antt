-- ===== src/Inventory/Unique.antt =====
-- What a scan reports: one item for each name and version, the first that is listed.
use appcenter_agent.Common.{
  String, ◌≡◌, refl, sym, ap, ◌∙◌, subst, ◌≢◌, inl, inr, true, false, Option, none, some, List, [],
  ◌∷◌, ◌++◌, if◌then◌else◌, Bool-cases, is_some, ◌==◌, nat_eq, int_eq, string_eq, is_blank, All,
}
use appcenter_agent.Common.Dict.{lookup, contains, insert, contains-insert}
use appcenter_agent.Common.Reorder.{Pairs}
use appcenter_agent.Inventory.{SoftwareItem}
use appcenter_agent.Inventory.Scanner.{
  Key, Gathered, dedup_key, add_item, add_items, listed_in, scan_paths, scan_installed_software,
}

-- the first item that has a name and this key
unfoldable pub first_with : String → List SoftwareItem → Option SoftwareItem
first_with k [] = none
first_with k (item ∷ items) =
    let rest = first_with k items in
    if is_blank item.name then rest else if dedup_key item == k then some item else rest

abbrev pub or_else : Option SoftwareItem → Option SoftwareItem → Option SoftwareItem
or_else none p = p
or_else (some item) p = some item

abbrev pub all_listed : List (Option (List (Option Key))) → List SoftwareItem
all_listed [] = []
all_listed (path ∷ paths) = listed_in path ++ all_listed paths

abbrev pub Separate : SoftwareItem → SoftwareItem → Type 0
Separate x y = dedup_key x ≢ dedup_key y

abbrev pub HasName : SoftwareItem → Type 0
HasName item = is_blank item.name ≡ false

or_else_assoc : (o p q : Option SoftwareItem) → or_else (or_else o p) q ≡ or_else o (or_else p q)
or_else_assoc none p q = refl
or_else_assoc (some item) p q = refl

or_else-none : (o : Option SoftwareItem) → or_else o none ≡ o
or_else-none none = refl
or_else-none (some item) = refl

first_with-append :
    (k : String) (xs ys : List SoftwareItem)
    → first_with k (xs ++ ys) ≡ or_else (first_with k xs) (first_with k ys)
unfolding first_with
first_with-append k [] ys = refl
first_with-append k (x ∷ xs) ys = elim (Bool-cases (is_blank x.name)) [
  | inl e ↦ rw e (first_with-append k xs ys)
  | inr e ↦ elim (Bool-cases (dedup_key x == k)) [
    | inl same ↦ rw (e, same) refl
    | inr differ ↦ rw (e, differ) (first_with-append k xs ys)
  ]
]

All-snoc :
    (P : SoftwareItem → Type 0) (xs : List SoftwareItem) (y : SoftwareItem)
    → All P xs
    → P y
    → All P (xs ++ (y ∷ []))
All-snoc P [] y h p = (p, tt)
All-snoc P (x ∷ xs) y h p = (h.0, All-snoc P xs y h.1 p)

Pairs-snoc :
    (xs : List SoftwareItem) (y : SoftwareItem)
    → Pairs Separate xs
    → All (λ x. Separate x y) xs
    → Pairs Separate (xs ++ (y ∷ []))
Pairs-snoc [] y h k = (tt, tt)
Pairs-snoc (x ∷ xs) y h k = (All-snoc (Separate x) xs y h.0 k.0, Pairs-snoc xs y h.1 k.1)

-- no item has a key that none is found under
absent-Separate :
    (xs : List SoftwareItem) (y : SoftwareItem)
    → All HasName xs
    → first_with (dedup_key y) xs ≡ none
    → All (λ x. Separate x y) xs
unfolding first_with
absent-Separate [] y h e = tt
absent-Separate (x ∷ xs) y h e = elim (Bool-cases (dedup_key x == dedup_key y)) [
  | inl same ↦ let clash : some x ≡ none = rw (h.0, same) at e in cc
  | inr differ ↦ (
    λ q. let same = (string_eq.test_iff (dedup_key x) (dedup_key y)).1 q in cc,
    absent-Separate xs y h.1 (rw (h.0, differ) at e),
  )
]

IsGathered : Gathered → Type 0
IsGathered g =
    Pairs Separate g.items
    × All HasName g.items
    × ((k : String) → contains k g.seen ≡ is_some (first_with k g.items))

-- what has been added to the items
Adds : Gathered → List SoftwareItem → Gathered → Type 0
Adds g more g' =
    (k : String) → first_with k g'.items ≡ or_else (first_with k g.items) (first_with k more)

-- an item whose key is found changes nothing that is found
covered :
    (k : String) (item : SoftwareItem) (items : List SoftwareItem)
    → is_some (first_with (dedup_key item) items) ≡ true
    → first_with k items ≡ or_else (first_with k items) (first_with k (item ∷ []))
unfolding first_with
covered k item items h = elim (Bool-cases (is_blank item.name)) [
  | inl e ↦ rw e (sym (or_else-none (first_with k items)))
  | inr e ↦ elim (Bool-cases (dedup_key item == k)) [
    | inl same ↦
        let found =
          subst (λ j. is_some (first_with j items) ≡ true)
            ((string_eq.test_iff (dedup_key item) k).0 same) h in
        rw (e, same) (kept (first_with k items) (some item) found)
    | inr differ ↦ rw (e, differ) (sym (or_else-none (first_with k items)))
  ]
]
  where
    kept : (o p : Option SoftwareItem) → is_some o ≡ true → o ≡ or_else o p
    kept none p h = cc
    kept (some i) p h = refl

none_of : (o : Option SoftwareItem) → is_some o ≡ false → o ≡ none
none_of none h = refl
none_of (some i) h = cc

is_some-or_else :
    (o p : Option SoftwareItem) → is_some (or_else o p) ≡ (if is_some p then true else is_some o)
is_some-or_else none none = refl
is_some-or_else none (some j) = refl
is_some-or_else (some i) none = refl
is_some-or_else (some i) (some j) = refl

found_with :
    (k : String) (item : SoftwareItem)
    → is_blank item.name ≡ false
    → is_some (first_with k (item ∷ [])) ≡ (dedup_key item == k)
unfolding first_with
found_with k item named = elim (Bool-cases (dedup_key item == k)) [
  | inl same ↦ rw (named, same) refl
  | inr differ ↦ rw (named, differ) refl
]

unnamed :
    (k : String) (item : SoftwareItem) → is_blank item.name ≡ true → first_with k (item ∷ []) ≡ none
unfolding first_with
unnamed k item e = rw e refl

added-IsGathered :
    (item : SoftwareItem) (g : Gathered)
    → IsGathered g
    → is_blank item.name ≡ false
    → contains (dedup_key item) g.seen ≡ false
    → IsGathered
        (record { seen = insert (dedup_key item) true g.seen; items = g.items ++ (item ∷ []) })
unfolding IsGathered first_with
added-IsGathered item g h named fresh = (
  Pairs-snoc g.items item h.0
      (absent-Separate g.items item h.1 (none_of _ (sym (h.2 (dedup_key item)) ∙ fresh))),
  All-snoc HasName g.items item h.1 named,
  λ k.
      contains-insert (dedup_key item) k true g.seen
      ∙ ap (λ b. if dedup_key item == k then true else b) (h.2 k)
      ∙ ap (λ b. if b then true else is_some (first_with k g.items)) (sym (found_with k item named))
      ∙ sym (is_some-or_else (first_with k g.items) (first_with k (item ∷ [])))
      ∙ ap is_some (sym (first_with-append k g.items (item ∷ []))),
)

add_item_lem :
    (item : SoftwareItem) (g : Gathered)
    → IsGathered g
    → IsGathered (add_item item g) × Adds g (item ∷ []) (add_item item g)
unfolding add_item IsGathered Adds
add_item_lem item g h = elim (Bool-cases (is_blank item.name)) [
  | inl e ↦ rw e (
    h,
    λ k. sym (
        ap (or_else (first_with k g.items)) (unnamed k item e)
        ∙ or_else-none (first_with k g.items)),
  )
  | inr e ↦ elim (Bool-cases (contains (dedup_key item) g.seen)) [
    | inl old ↦ rw (e, old) (h, λ k. covered k item g.items (sym (h.2 (dedup_key item)) ∙ old))
    | inr fresh ↦
        rw (e, fresh)
          (added-IsGathered item g h e fresh, λ k. first_with-append k g.items (item ∷ []))
  ]
]

add_items_lem :
    (items : List SoftwareItem) (g : Gathered)
    → IsGathered g
    → IsGathered (add_items items g) × Adds g items (add_items items g)
unfolding add_items Adds first_with
add_items_lem [] g h = (h, λ k. sym (or_else-none (first_with k g.items)))
add_items_lem (item ∷ items) g h =
    let one = add_item_lem item g h in
    let rest = add_items_lem items (add_item item g) one.0 in
    (
      rest.0,
      λ k.
          rest.1 k
          ∙ ap (λ o. or_else o (first_with k items)) (one.1 k)
          ∙ or_else_assoc (first_with k g.items) (first_with k (item ∷ [])) (first_with k items)
          ∙ ap (or_else (first_with k g.items)) (sym (first_with-append k (item ∷ []) items)),
    )

scan_paths_lem :
    (paths : List (Option (List (Option Key)))) (g : Gathered)
    → IsGathered g
    → IsGathered (scan_paths paths g) × Adds g (all_listed paths) (scan_paths paths g)
unfolding scan_paths Adds first_with
scan_paths_lem [] g h = (h, λ k. sym (or_else-none (first_with k g.items)))
scan_paths_lem (path ∷ paths) g h =
    let one = add_items_lem (listed_in path) g h in
    let rest = scan_paths_lem paths (add_items (listed_in path) g) one.0 in
    (
      rest.0,
      λ k.
          rest.1 k
          ∙ ap (λ o. or_else o (first_with k (all_listed paths))) (one.1 k)
          ∙ or_else_assoc (first_with k g.items) (first_with k (listed_in path))
              (first_with k (all_listed paths))
          ∙ ap (or_else (first_with k g.items))
              (sym (first_with-append k (listed_in path) (all_listed paths))),
    )

-- No two items of a scan have the same dedup key, which is name, bar and version, every item has
-- a name, and the item under each key is the first one with a name and that key among those that
-- the registry paths and then the packages list.
pub first_listed :
    (paths : List (Option (List (Option Key)))) (packages : List SoftwareItem)
    → Pairs Separate (scan_installed_software paths packages)
      × All HasName (scan_installed_software paths packages)
      × ((k : String)
          → first_with k (scan_installed_software paths packages)
            ≡ first_with k (all_listed paths ++ packages))
unfolding scan_installed_software IsGathered Adds first_with lookup
first_listed paths packages =
    let start : Gathered = record { seen = []; items = [] } in
    let walked = scan_paths_lem paths start (tt, tt, λ k. refl) in
    let whole = add_items_lem packages (scan_paths paths start) walked.0 in
    (
      whole.0.0,
      whole.0.1,
      λ k.
          whole.1 k
          ∙ ap (λ o. or_else o (first_with k packages)) (walked.1 k)
          ∙ sym (first_with-append k (all_listed paths) packages),
    )
