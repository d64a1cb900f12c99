-- ===== src/Logger/Rotation.antt =====
-- What a write that rotates the log keeps.
use appcenter_agent.Common.{
  ℕ, suc, ◌+◌, ◌≡◌, refl, ap, ◌∙◌, Bool, true, false, Option, none, some, [], arith, if◌then◌else◌,
  nat_eq, int_eq, string_eq, length,
}
use appcenter_agent.Files.{Bytes}
use appcenter_agent.Logger.{
  opened, stale, RotatingWriter, Log, Disk, or_no_bytes, open_file, set_backup, shift, put_aside,
  after_shift, rotate, has_room, rotate_if_needed, append_by, append_bytes, write_by, write,
}
use appcenter_agent.Logger.Shifting.{
  set_backup-other, set_backup_self, shifted, shift-ok, shift-shifted,
}

module _ (disk : Disk) (renames : (i : ℕ) → disk.renames i ≡ true) where
  -- the backups after the current file has become the first of them
  abbrev put_first : Bytes → (ℕ → Option Bytes) → ℕ → Option Bytes
  put_first c backups = set_backup 1 (some c) (set_backup 1 none backups)

  abbrev rotated_log : RotatingWriter → Log → Bytes → Log
  rotated_log w log c = record {
    handle = opened;
    current = some [];
    backups = put_first c (shift disk w.max_backups log.backups).1;
  }

  aside :
      (log : Log) (c : Bytes) (r : Bool × (ℕ → Option Bytes))
      → disk.opens ≡ true
      → log.current ≡ some c
      → r.0 ≡ true
      → after_shift disk log r
        ≡ (true, record { handle = opened; current = some []; backups = put_first c r.1 })
  unfolding open_file
  aside log c (false, backups) opens e q = cc
  aside log c (true, backups) opens e q =
      ap
        (λ o. put_aside disk o (record log { handle = stale; backups = set_backup 1 none backups }))
        e
      ∙ rw (renames 0, opens) refl

  rotated :
      (w : RotatingWriter) (log : Log) (c : Bytes)
      → disk.opens ≡ true
      → log.current ≡ some c
      → rotate w disk log ≡ (true, rotated_log w log c)
  unfolding rotate
  rotated w log c opens e =
      aside log c (shift disk w.max_backups log.backups) opens e
        (shift-ok disk renames w.max_backups log.backups)

  write_full :
      (w : RotatingWriter) (log : Log) (p c : Bytes)
      → disk.opens ≡ true
      → disk.breaks_off ≡ none
      → log.handle ≡ opened
      → log.current ≡ some c
      → has_room (length c + length p) w.max_bytes ≡ false
      → write w disk p log ≡ (true, record (rotated_log w log c) { current = some p })
  unfolding write write_by rotate_if_needed
  write_full w log p c opens whole h e full =
      ap (λ handle. write_by w disk p handle log) h
      ∙ ap
          (λ o. append_bytes disk p (
            if has_room (length (or_no_bytes o) + length p) w.max_bytes
            then (true, log)
            else rotate w disk log))
          e
      ∙ ap (λ b. append_bytes disk p (if b then (true, log) else rotate w disk log)) full
      ∙ ap (append_bytes disk p) (rotated w log c opens e)
      ∙ ap (λ o. append_by o p (rotated_log w log c)) whole

  -- If every rename, the opening and the writing succeed, a write that does not fit into the
  -- open file starts a new one with the entry alone and makes the old file the first backup;
  -- above it, each place takes the backup before it, if there is one with a number up to
  -- max_backups, and else is empty up to max_backups and as it was beyond.
  pub write_keeps :
      (w : RotatingWriter) (log : Log) (p c : Bytes) (k : ℕ)
      → disk.opens ≡ true
      → disk.breaks_off ≡ none
      → log.handle ≡ opened
      → log.current ≡ some c
      → has_room (length c + length p) w.max_bytes ≡ false
      → ((write w disk p log).0 ≡ true)
        × ((write w disk p log).1.current ≡ some p)
        × ((write w disk p log).1.backups 1 ≡ some c)
        × ((write w disk p log).1.backups (suc (suc k)) ≡ shifted w.max_backups log.backups k)
  write_keeps w log p c k opens whole h e full = rw (write_full w log p c opens whole h e full) (
    refl,
    refl,
    set_backup_self 1 (some c) _,
    set_backup-other 1 (suc (suc k)) (some c) _ (λ r. omega (arith, r))
        ∙ set_backup-other 1 (suc (suc k)) none _ (λ r. omega (arith, r))
        ∙ shift-shifted disk renames w.max_backups log.backups k,
  )
