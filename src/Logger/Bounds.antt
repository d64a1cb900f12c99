-- ===== src/Logger/Bounds.antt =====
-- How large the log gets, and what a failed rotation leads to.
use appcenter_agent.Common.{
  ℕ, suc, ◌+◌, ◌≡◌, refl, ap, ◌∙◌, ◌⊎◌, inl, inr, Bool, true, false, Option, none, some, List, [],
  ◌∷◌, ◌++◌, arith, leb→le, ℕ, ℤ, pos, negsuc, ◌≤◌, if◌then◌else◌, Bool-cases, nat_eq, int_eq,
  string_eq, length, length-append,
}
use appcenter_agent.Files.{Bytes}
use appcenter_agent.Logger.{
  Handle, unset, opened, stale, RotatingWriter, Log, Disk, or_no_bytes, open_file, set_backup,
  shift, put_aside, after_shift, rotate, has_room, rotate_if_needed, append_by, append_bytes,
  write_opened, write_by, write,
}
use appcenter_agent.Logger.Shifting.{set_backup-other, shift-beyond}

-- so many bytes are within the limit
abbrev pub InLimit : ℕ → ℤ → Type 0
InLimit n (pos m) = n ≤ m
InLimit n (negsuc m) = ⊥

-- the current file after a write: within the limit, or with the entry alone
abbrev pub IsSmall : RotatingWriter → Bytes → Log → Type 0
IsSmall w p log = InLimit (length (or_no_bytes log.current)) w.max_bytes ⊎ (log.current ≡ some p)

room-InLimit : (n : ℕ) (limit : ℤ) → has_room n limit ≡ true → InLimit n limit
room-InLimit n (pos m) h = leb→le n m h
room-InLimit n (negsuc m) h = cc

-- nothing beyond one backup more than the limit
abbrev pub FewBackups : RotatingWriter → Log → Type 0
FewBackups w log = (k : ℕ) → log.backups (w.max_backups + 2 + k) ≡ none

abbrev pub IsBounded : RotatingWriter → Bytes → Bool × Log → Type 0
IsBounded w p (true, log) = IsSmall w p log × FewBackups w log
IsBounded w p (false, log) = FewBackups w log

-- after a rotation: an empty file, or an error
abbrev Turned : RotatingWriter → Bool × Log → Type 0
Turned w (true, log) = (log.current ≡ some []) × FewBackups w log
Turned w (false, log) = (log.handle ≡ stale) × FewBackups w log

opened_empty :
    (w : RotatingWriter) (disk : Disk) (log : Log)
    → log.current ≡ none
    → log.handle ≡ stale
    → FewBackups w log
    → Turned w (open_file disk log)
unfolding open_file
opened_empty w disk log e s h = elim (Bool-cases disk.opens) [
  | inl ok ↦ rw ok (ap (λ o. some (or_no_bytes o)) e, h)
  | inr bad ↦ rw bad (s, h)
]

few-set :
    (w : RotatingWriter) (content : Option Bytes) (backups : ℕ → Option Bytes) (k : ℕ)
    → backups (w.max_backups + 2 + k) ≡ none
    → set_backup 1 content backups (w.max_backups + 2 + k) ≡ none
few-set w content backups k h = set_backup-other 1 _ content backups (λ r. omega (arith, r)) ∙ h

aside-Turned :
    (w : RotatingWriter) (disk : Disk) (o : Option Bytes) (log : Log)
    → log.current ≡ o
    → log.handle ≡ stale
    → FewBackups w log
    → Turned w (put_aside disk o log)
unfolding open_file
aside-Turned w disk none log e s h = opened_empty w disk log e s h
aside-Turned w disk (some c) log e s h = elim (Bool-cases (disk.renames 0)) [
  | inl ok ↦ rw ok (
      opened_empty w disk
        (record log { current = none; backups = set_backup 1 (some c) log.backups }) refl s
        (λ k. few-set w (some c) log.backups k (h k)))
  | inr bad ↦ rw bad (s, h)
]

rotate-Turned :
    (w : RotatingWriter) (disk : Disk) (log : Log) → FewBackups w log → Turned w (rotate w disk log)
unfolding rotate
rotate-Turned w disk log h =
    by_shift (shift disk w.max_backups log.backups)
      (λ k. shift-beyond disk w.max_backups log.backups (w.max_backups + 2 + k) (omega arith) ∙ h k)
  where
    by_shift :
        (r : Bool × (ℕ → Option Bytes))
        → ((k : ℕ) → r.1 (w.max_backups + 2 + k) ≡ none)
        → Turned w (after_shift disk log r)
    by_shift (false, backups) few = (refl, few)
    by_shift (true, backups) few =
        aside-Turned w disk log.current
          (record log { handle = stale; backups = set_backup 1 none backups }) refl refl
          (λ k. few-set w none backups k (few k))

-- the entry is written, or not all of it
by_write :
    (w : RotatingWriter) (o : Option ℕ) (p : Bytes) (log : Log)
    → IsSmall w p (record log { current = some (or_no_bytes log.current ++ p) })
    → FewBackups w log
    → IsBounded w p (append_by o p log)
by_write w none p log small few = (small, few)
by_write w (some n) p log small few = few

appended_small :
    (w : RotatingWriter) (disk : Disk) (p : Bytes) (r : Bool × Log)
    → Turned w r
    → IsBounded w p (append_bytes disk p r)
appended_small w disk p (false, log) h = h.1
appended_small w disk p (true, log) h =
    by_write w disk.breaks_off p log (inr (ap (λ o. some (or_no_bytes o ++ p)) h.0)) h.1

opened-IsBounded :
    (w : RotatingWriter) (disk : Disk) (p : Bytes) (log : Log)
    → FewBackups w log
    → IsBounded w p (write_opened w disk p (true, log))
unfolding rotate_if_needed
opened-IsBounded w disk p log h =
    elim (Bool-cases (has_room (length (or_no_bytes log.current) + length p) w.max_bytes)) [
      | inl e ↦ rw e (
          by_write w disk.breaks_off p log
            (inl (
              room-InLimit _ w.max_bytes
                (ap (λ n. has_room n w.max_bytes) (length-append (or_no_bytes log.current) p) ∙ e)))
            h)
      | inr e ↦ rw e (appended_small w disk p (rotate w disk log) (rotate-Turned w disk log h))
    ]

reopened-IsBounded :
    (w : RotatingWriter) (disk : Disk) (p : Bytes) (log : Log)
    → FewBackups w log
    → IsBounded w p (write_opened w disk p (open_file disk log))
unfolding open_file
reopened-IsBounded w disk p log h = elim (Bool-cases disk.opens) [
  | inl e ↦ simp e (
      opened-IsBounded w disk p
        (record log { handle = opened; current = some (or_no_bytes log.current) }) h)
  | inr e ↦ rw e h
]

-- A write to a log without a backup beyond the number one more than max_backups leaves none
-- beyond it either, whatever fails; and if it succeeds, the current file is within the limit of
-- bytes or holds that entry alone.
pub write-IsBounded :
    (w : RotatingWriter) (disk : Disk) (p : Bytes) (log : Log)
    → FewBackups w log
    → IsBounded w p (write w disk p log)
unfolding write write_by
write-IsBounded w disk p log h = by_handle log.handle
  where
    by_handle : (handle : Handle) → IsBounded w p (write_by w disk p handle log)
    by_handle stale = h
    by_handle opened = opened-IsBounded w disk p log h
    by_handle unset = reopened-IsBounded w disk p log h

-- writes, each with what the file system answers: how many succeed, and the log
unfoldable pub write_all : RotatingWriter → List (Disk × Bytes) → Log → ℕ × Log
write_all w [] log = (0, log)
write_all w ((disk, p) ∷ rest) log =
    let r = write w disk p log in
    let later = write_all w rest r.1 in (if r.0 then suc later.0 else later.0, later.1)

stale_writes :
    (w : RotatingWriter) (rest : List (Disk × Bytes)) (log : Log)
    → log.handle ≡ stale
    → write_all w rest log ≡ (0, log)
unfolding write_all write write_by
stale_writes w [] log h = refl
stale_writes w ((disk, p) ∷ rest) log h =
    ap
      (λ (r : Bool × Log).
        let later = write_all w rest r.1 in (if r.0 then suc later.0 else later.0, later.1))
      (ap (λ handle. write_by w disk p handle log) h)
    ∙ stale_writes w rest log h

-- a failed rotation leaves the closed file behind, and no entry is written
failed-stale :
    (w : RotatingWriter) (disk : Disk) (p : Bytes) (r : Bool × Log)
    → Turned w r
    → r.0 ≡ false
    → ((append_bytes disk p r).0 ≡ false) × ((append_bytes disk p r).1.handle ≡ stale)
failed-stale w disk p (true, log) h e = let clash : true ≡ false = e in cc
failed-stale w disk p (false, log) h e = (refl, h.0)

write-stale :
    (w : RotatingWriter) (disk : Disk) (p : Bytes) (log : Log)
    → FewBackups w log
    → (rotate_if_needed w disk (length p) log).0 ≡ false
    → ((append_bytes disk p (rotate_if_needed w disk (length p) log)).0 ≡ false)
      × ((append_bytes disk p (rotate_if_needed w disk (length p) log)).1.handle ≡ stale)
unfolding rotate_if_needed
write-stale w disk p log few e =
    elim (Bool-cases (has_room (length (or_no_bytes log.current) + length p) w.max_bytes)) [
      | inl q ↦ let clash : true ≡ false = rw q at e in cc
      | inr q ↦
          let e' : (rotate w disk log).0 ≡ false = rw q at e in
          rw q (failed-stale w disk p (rotate w disk log) (rotate-Turned w disk log few) e')
    ]

-- If the rotation before a write to an open file fails, in a log without a backup beyond the
-- number one more than max_backups, this write fails, and all later writes fail and leave the
-- log as it is, whatever the file system answers.
pub failed_for_good :
    (w : RotatingWriter) (disk : Disk) (p : Bytes) (log : Log) (rest : List (Disk × Bytes))
    → FewBackups w log
    → log.handle ≡ opened
    → (rotate_if_needed w disk (length p) log).0 ≡ false
    → ((write w disk p log).0 ≡ false)
      × (write_all w rest (write w disk p log).1 ≡ (0, (write w disk p log).1))
unfolding write write_by
failed_for_good w disk p log rest few h e =
    let body = write-stale w disk p log few e in
    let opens = ap (λ handle. write_by w disk p handle log) h in
    (
      ap (λ (r : Bool × Log). r.0) opens ∙ body.0,
      stale_writes w rest (write w disk p log).1
          (ap (λ (r : Bool × Log). r.1.handle) opens ∙ body.1),
    )
