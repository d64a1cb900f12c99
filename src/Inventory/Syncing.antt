-- ===== src/Inventory/Syncing.antt =====
-- What the inventory guarantees of its hash, of the time between scans, and of what it submits.
use appcenter_agent.Common.{
  ℕ, ◌≤◌, String, ◌≡◌, refl, sym, ◌∙◌, ◌≢◌, ◌↔◌, inl, inr, Bool, true, false, some, List, [], ◌∷◌,
  arith, ltb, ltb→lt, Bool-cases, nat_eq, int_eq, string_eq,
}
use appcenter_agent.Common.Sort.{place, sort}
use appcenter_agent.Common.Text.{codes}
use mathlib.Core.List.{Perm}
use appcenter_agent.Common.Order.{code_less_asymm, code_less_neg_trans, string_set}
use appcenter_agent.Common.Reorder.{Comparable, Pairs, sort-perm}
use appcenter_agent.Inventory.{
  SoftwareItem, Manager, name_less, compute_hash, panicked, returned, text_length, store_scan,
  force_scan,
}

name_less_asymm : (x y : SoftwareItem) → name_less x y ≡ true → name_less y x ≡ false
unfolding name_less
name_less_asymm x y = code_less_asymm (codes x.name) (codes y.name)

name_less_neg_trans :
    (x y z : SoftwareItem) → name_less y x ≡ false → name_less z y ≡ false → name_less z x ≡ false
unfolding name_less
name_less_neg_trans x y z = code_less_neg_trans (codes x.name) (codes y.name) (codes z.name)

-- one of the names stands before the other
abbrev pub DistinctNames : List SoftwareItem → Type 0
DistinctNames = Pairs (Comparable name_less)

module _ (digest : List SoftwareItem → String) where
  abbrev hash_sorted : List SoftwareItem → String
  hash_sorted [] = "empty"
  hash_sorted (x ∷ xs) = digest (x ∷ xs)

  hash_sorted-place :
      (x : SoftwareItem) (ys : List SoftwareItem)
      → digest (place name_less x ys) ≡ hash_sorted (place name_less x ys)
  unfolding place
  hash_sorted-place x [] = refl
  hash_sorted-place x (y ∷ ys) = elim (Bool-cases (name_less y x)) [
    | inl e ↦ rw e refl
    | inr e ↦ rw e refl
  ]

  compute_hash-sorted :
      (xs : List SoftwareItem) → compute_hash digest xs ≡ hash_sorted (sort name_less xs)
  unfolding compute_hash sort
  compute_hash-sorted [] = refl
  compute_hash-sorted (x ∷ xs) = hash_sorted-place x (sort name_less xs)

  -- Two lists with the same items in any order have the same hash, if the names of any two of
  -- the items differ.
  compute_hash-perm :
      {xs ys : List SoftwareItem}
      → Perm xs ys
      → DistinctNames xs
      → compute_hash digest xs ≡ compute_hash digest ys
  compute_hash-perm {xs} {ys} p h =
      compute_hash-sorted xs
      ∙ sort-perm name_less name_less_asymm name_less_neg_trans string_set hash_sorted p h
      ∙ sym (compute_hash-sorted ys)

  store_scan_long :
      (hash : String) (items : List SoftwareItem) (now : ℕ) (m : Manager)
      → 12 ≤ text_length hash
      → store_scan hash items now m
        ≡ returned true
            (record m { last_items = items; last_hash = hash; last_scan_time = some now })
  store_scan_long hash items now m h = elim (Bool-cases (ltb (text_length hash) 12)) [
    | inl e ↦ absurd (omega (arith, ltb→lt _ _ e, h))
    | inr e ↦ rw e refl
  ]

  panicked-ne : {b : Bool} {m : Manager} → panicked ≢ returned b m
  panicked-ne e = cc

  module _ (long : (l : List SoftwareItem) → 12 ≤ text_length (digest l)) where
    compute_hash_long :
        (item : SoftwareItem) (items : List SoftwareItem)
        → 12 ≤ text_length (compute_hash digest (item ∷ items))
    unfolding compute_hash
    compute_hash_long item items = long (sort name_less (item ∷ items))

    force_scan_found :
        (item : SoftwareItem) (items : List SoftwareItem) (now : ℕ) (m : Manager)
        → force_scan digest (item ∷ items) now m
          ≡ returned true (record m {
            last_items = item ∷ items;
            last_hash = compute_hash digest (item ∷ items);
            last_scan_time = some now;
          })
    unfolding force_scan
    force_scan_found item items now m =
        store_scan_long (compute_hash digest (item ∷ items)) (item ∷ items) now m
          (compute_hash_long item items)

    -- If every hash of items has at least twelve characters, ForceScan panics exactly when the
    -- scan has found nothing.
    pub force_scan-panicked_iff :
        (items : List SoftwareItem) (now : ℕ) (m : Manager)
        → (force_scan digest items now m ≡ panicked) ↔ (items ≡ [])
    unfolding force_scan compute_hash
    force_scan-panicked_iff [] now m = (λ e. refl, λ e. refl)
    force_scan-panicked_iff (item ∷ items) now m =
        (λ e. absurd (panicked-ne (sym e ∙ force_scan_found item items now m)), λ e. cc)
