-- ===== src/Logger/Shifting.antt =====
-- Where the rotation of the log moves the backups.
use appcenter_agent.Common.{
  ℕ, zero, suc, ◌+◌, ◌≤◌, ◌<◌, ◌≡◌, refl, sym, ap, ◌∙◌, ◌≢◌, ◌⊎◌, inl, inr, Bool, true, false,
  Option, none, some, arith, if◌then◌else◌, nat_beq, ltb, ltb→lt, Bool-cases, nat_eq, int_eq,
  string_eq,
}
use appcenter_agent.Files.{Bytes}
use appcenter_agent.Logger.{Disk, set_backup, shift_one, shift}

pub set_backup-other :
    (i j : ℕ) (content : Option Bytes) (backups : ℕ → Option Bytes)
    → i ≢ j
    → set_backup i content backups j ≡ backups j
unfolding set_backup
set_backup-other i j content backups h = ground (arith, h)

pub set_backup_self :
    (i : ℕ) (content : Option Bytes) (backups : ℕ → Option Bytes)
    → set_backup i content backups i ≡ content
unfolding set_backup
set_backup_self i content backups = ground arith

-- one round, from what holds of the rounds that follow
one-beyond :
    (disk : Disk) (n : ℕ) (o : Option Bytes) (backups : ℕ → Option Bytes)
    (later : (ℕ → Option Bytes) → Bool × (ℕ → Option Bytes)) (j : ℕ)
    → n + 3 ≤ j
    → ((b : ℕ → Option Bytes) → (later b).1 j ≡ b j)
    → (shift_one disk (suc n) o backups later).1 j ≡ backups j
one-beyond disk n none backups later j h f = f backups
one-beyond disk n (some content) backups later j h f = elim (Bool-cases (disk.renames (suc n))) [
  | inl e ↦ rw e (
      f _
      ∙ set_backup-other (suc n) j none _ (λ q. omega (arith, h, q))
      ∙ set_backup-other (suc (suc n)) j (some content) backups (λ q. omega (arith, h, q)))
  | inr e ↦ rw e (set_backup-other (suc (suc n)) j none backups (λ q. omega (arith, h, q)))
]

-- the loop leaves alone what lies beyond the last backup
pub shift-beyond :
    (disk : Disk) (n : ℕ) (backups : ℕ → Option Bytes) (j : ℕ)
    → n + 2 ≤ j
    → (shift disk n backups).1 j ≡ backups j
unfolding shift
shift-beyond disk zero backups j h = refl
shift-beyond disk (suc n) backups j h =
    one-beyond disk n (backups (suc n)) backups (shift disk n) j (omega (arith, h))
      (λ b. shift-beyond disk n b j (omega (arith, h)))

abbrev pub first_found : Option Bytes → Option Bytes → Option Bytes
first_found none later = later
first_found (some c) later = some c

abbrev pub pick : Bool → Bool → Option Bytes → Option Bytes → Option Bytes
pick moves empties x y = first_found (if moves then x else none) (if empties then none else y)

-- what the backup number k + 2 is after a rotation: the backup before it, if there is one up to
-- the limit; else none below the limit; and what it was from there on
abbrev pub shifted : ℕ → (ℕ → Option Bytes) → ℕ → Option Bytes
shifted n backups k = pick (ltb k n) (ltb (suc k) n) (backups (suc k)) (backups (suc (suc k)))

shifted_at :
    (n : ℕ) (backups : ℕ → Option Bytes) (k : ℕ) (s t : Bool) {x y : Option Bytes}
    → ltb k n ≡ s
    → ltb (suc k) n ≡ t
    → backups (suc k) ≡ x
    → backups (suc (suc k)) ≡ y
    → shifted n backups k ≡ pick s t x y
shifted_at n backups k s t e e' q q' = rw (e, e', q, q') refl

pick_gap : (x : Option Bytes) → pick true false x none ≡ pick true true x none
pick_gap none = refl
pick_gap (some c) = refl

-- where k stands to the last backup n
places : (k n : ℕ) → (k + 1 < n) ⊎ (k + 1 ≡ n) ⊎ (k ≡ n) ⊎ (n < k)
places k n = elim (Bool-cases (ltb (k + 1) n)) [
  | inl e ↦ inl (ltb→lt (k + 1) n e)
  | inr e ↦ elim (Bool-cases (nat_beq (k + 1) n)) [
    | inl e' ↦ inr (inl (ground arith))
    | inr e' ↦ elim (Bool-cases (nat_beq k n)) [
      | inl e'' ↦ inr (inr (inl (ground arith)))
      | inr e'' ↦ inr (inr (inr (ground arith)))
    ]
  ]
]

over_gap :
    (n k : ℕ) (backups : ℕ → Option Bytes)
    → backups (suc n) ≡ none
    → shifted n backups k ≡ shifted (suc n) backups k
over_gap n k backups e = elim (places k n) [
  | inl before ↦
      shifted_at n backups k true true (ground arith) (ground arith) refl refl
      ∙ sym (shifted_at (suc n) backups k true true (ground arith) (ground arith) refl refl)
  | inr (inl next) ↦
      let gap : backups (suc (suc k)) ≡ none =
        ap backups {x = suc (suc k)} {y = suc n} (omega (arith, next)) ∙ e in
      shifted_at n backups k true false (ground arith) (ground arith) refl gap
      ∙ pick_gap (backups (suc k))
      ∙ sym (shifted_at (suc n) backups k true true (ground arith) (ground arith) refl gap)
  | inr (inr (inl last)) ↦
      let gap : backups (suc k) ≡ none =
        ap backups {x = suc k} {y = suc n} (omega (arith, last)) ∙ e in
      shifted_at n backups k false false (ground arith) (ground arith) refl refl
      ∙ sym (shifted_at (suc n) backups k true false (ground arith) (ground arith) gap refl)
  | inr (inr (inr beyond)) ↦
      shifted_at n backups k false false (ground arith) (ground arith) refl refl
      ∙ sym (shifted_at (suc n) backups k false false (ground arith) (ground arith) refl refl)
]

over_backup :
    (n k : ℕ) (c : Bytes) (backups : ℕ → Option Bytes)
    → backups (suc n) ≡ some c
    → shifted n (set_backup (suc n) none (set_backup (suc (suc n)) (some c) backups)) k
      ≡ shifted (suc n) backups k
over_backup n k c backups e = elim (places k n) [
  | inl before ↦
      shifted_at n moved k true true (ground arith) (ground arith)
        (untouched (suc k) (λ q. omega (arith, q, before)) (λ q. omega (arith, q, before))) refl
      ∙ sym (shifted_at (suc n) backups k true true (ground arith) (ground arith) refl refl)
  | inr (inl next) ↦
      let there : suc (suc k) ≡ suc n = omega (arith, next) in
      shifted_at n moved k true false (ground arith) (ground arith)
        (untouched (suc k) (λ q. omega (arith, q, next)) (λ q. omega (arith, q, next)))
        (ap moved there ∙ set_backup_self (suc n) none _)
      ∙ pick_gap (backups (suc k))
      ∙ sym (shifted_at (suc n) backups k true true (ground arith) (ground arith) refl refl)
  | inr (inr (inl last)) ↦
      let there : suc (suc k) ≡ suc (suc n) = omega (arith, last) in
      let from : backups (suc k) ≡ some c =
        ap backups {x = suc k} {y = suc n} (omega (arith, last)) ∙ e in
      shifted_at n moved k false false (ground arith) (ground arith) refl (
        ap moved there
        ∙ set_backup-other (suc n) (suc (suc n)) none _ (λ q. omega (arith, q))
        ∙ set_backup_self (suc (suc n)) (some c) backups)
      ∙ sym (shifted_at (suc n) backups k true false (ground arith) (ground arith) from refl)
  | inr (inr (inr beyond)) ↦
      shifted_at n moved k false false (ground arith) (ground arith) refl
        (untouched (suc (suc k)) (λ q. omega (arith, q, beyond)) (λ q. omega (arith, q, beyond)))
      ∙ sym (shifted_at (suc n) backups k false false (ground arith) (ground arith) refl refl)
]
  where
    moved : ℕ → Option Bytes
    moved = set_backup (suc n) none (set_backup (suc (suc n)) (some c) backups)

    untouched : (j : ℕ) → suc n ≢ j → suc (suc n) ≢ j → moved j ≡ backups j
    untouched j h h' =
        set_backup-other (suc n) j none _ h ∙ set_backup-other (suc (suc n)) j (some c) backups h'

module _ (disk : Disk) (renames : (i : ℕ) → disk.renames i ≡ true) where
  one-ok :
      (n : ℕ) (o : Option Bytes) (backups : ℕ → Option Bytes)
      (later : (ℕ → Option Bytes) → Bool × (ℕ → Option Bytes))
      → ((b : ℕ → Option Bytes) → (later b).0 ≡ true)
      → (shift_one disk n o backups later).0 ≡ true
  one-ok n none backups later f = f backups
  one-ok n (some content) backups later f = rw (renames n) (f _)

  pub shift-ok : (n : ℕ) (backups : ℕ → Option Bytes) → (shift disk n backups).0 ≡ true
  unfolding shift
  shift-ok zero backups = refl
  shift-ok (suc n) backups = one-ok (suc n) (backups (suc n)) backups (shift disk n) (shift-ok n)

  one-shifted :
      (n k : ℕ) (o : Option Bytes) (backups : ℕ → Option Bytes)
      → backups (suc n) ≡ o
      → ((b : ℕ → Option Bytes) → (shift disk n b).1 (suc (suc k)) ≡ shifted n b k)
      → (shift_one disk (suc n) o backups (shift disk n)).1 (suc (suc k))
        ≡ shifted (suc n) backups k
  unfolding set_backup
  one-shifted n k none backups e f = f backups ∙ over_gap n k backups e
  one-shifted n k (some c) backups e f = rw (renames (suc n)) (f _ ∙ over_backup n k c backups e)

  pub shift-shifted :
      (n : ℕ) (backups : ℕ → Option Bytes) (k : ℕ)
      → (shift disk n backups).1 (suc (suc k)) ≡ shifted n backups k
  unfolding shift
  shift-shifted zero backups k =
      sym (shifted_at 0 backups k false false (ground arith) (ground arith) refl refl)
  shift-shifted (suc n) backups k =
      one-shifted n k (backups (suc n)) backups refl (λ b. shift-shifted n b k)
