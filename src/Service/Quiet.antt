-- ===== src/Service/Quiet.antt =====
-- The reports of a task and the hash of the inventory over time.
use appcenter_agent.Common.{
  ℕ, ◌-◌, String, ◌≡◌, refl, sym, ap, ◌∙◌, inl, inr, Bool, true, false, not, ◌&&◌, none, some, map,
  arith, ltb, if◌then◌else◌, Bool-cases, nat_eq, int_eq, string_eq, is_blank,
}
use appcenter_agent.Common.Text.{codes, trim_space, same_codes_refl}
use mathlib.Core.Option.{some-injective}
use appcenter_agent.Inventory.Appx.{equal_fold, ascii_lower}
use appcenter_agent.Service.Sending.{
  HashSent, ws_inventory_hash_interval, is_early, send_ws_inventory_hash,
}

equal_fold_refl : (s : String) → equal_fold s s ≡ true
unfolding equal_fold
equal_fold_refl s = same_codes_refl (map ascii_lower (codes s))

-- an unforced send of what was sent last
repeated :
    (now later : ℕ) (current : String) (last : HashSent)
    → is_blank (trim_space current) ≡ false
    → last.hash ≡ trim_space current
    → last.at ≡ some now
    → (send_ws_inventory_hash true true false later current last).0
      ≡ (if ltb (later - now) ws_inventory_hash_interval then none else some (trim_space current))
unfolding send_ws_inventory_hash
repeated now later current last filled same sent =
    simp (filled, same, sent, equal_fold_refl (trim_space current)) (ground arith)

sent_now : ℕ → String → HashSent
sent_now now current = record { hash = trim_space current; at = some now }

kept_sent :
    (force : Bool) (now : ℕ) (current : String) (last : HashSent) {hash : String}
    → (send_ws_inventory_hash true true force now current last).0 ≡ some hash
    → (is_blank (trim_space current) ≡ false)
      × (hash ≡ trim_space current)
      × ((send_ws_inventory_hash true true force now current last).1 ≡ sent_now now current)
unfolding send_ws_inventory_hash sent_now
kept_sent force now current last {hash} e = elim (Bool-cases (is_blank (trim_space current))) [
  | inl blank ↦ let clash : none ≡ some hash = rw blank at e in cc
  | inr filled ↦
      elim (Bool-cases
        (not force && equal_fold (trim_space current) last.hash && is_early now last.at)) [
          | inl early ↦ let clash : none ≡ some hash = rw (filled, early) at e in cc
          | inr due ↦
              let same : some (trim_space current) ≡ some hash = rw (filled, due) at e in
              rw (filled, due) (refl, sym (some-injective _ _ same), refl)
        ]
]

pub hash_quiet :
    (force : Bool) (now later : ℕ) (current : String) (last : HashSent) {hash : String}
    → (send_ws_inventory_hash true true force now current last).0 ≡ some hash
    → (hash ≡ trim_space current)
      × ((send_ws_inventory_hash true true false later current
            (send_ws_inventory_hash true true force now current last).1).0
          ≡ (if ltb (later - now) ws_inventory_hash_interval then none else some hash))
unfolding sent_now
hash_quiet force now later current last {hash} e =
    let k = kept_sent force now current last e in
    (
      k.1,
      ap (λ l. (send_ws_inventory_hash true true false later current l).0) k.2
          ∙ repeated now later current (sent_now now current) k.0 refl refl
          ∙ ap (λ h. if ltb (later - now) ws_inventory_hash_interval then none else some h)
              (sym k.1),
    )
