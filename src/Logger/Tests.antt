-- ===== src/Logger/Tests.antt =====
-- Runs of the log.
use appcenter_agent.Common.{
  ℕ, ◌≡◌, refl, true, false, Option, none, some, [], ◌∷◌, arith, if◌then◌else◌, nat_beq, pos,
  nat_eq, int_eq, string_eq,
}
use appcenter_agent.Files.{Bytes}
use appcenter_agent.Logger.{
  opened, RotatingWriter, Log, Disk, open_file, set_backup, shift, rotate, rotate_if_needed,
  write_by, write,
}
use appcenter_agent.Logger.Shifting.{shifted}
use appcenter_agent.Logger.Rotation.{write_keeps}
use appcenter_agent.Logger.Bounds.{
  FewBackups, IsBounded, write-IsBounded, write_all, failed_for_good,
}

abbrev small : RotatingWriter
small = record { max_bytes = pos 3; max_backups = 2 }

abbrev works : Disk
works = record { opens = true; renames = λ i. true; breaks_off = none }

abbrev first_backup : ℕ → Option Bytes
first_backup j = if nat_beq j 1 then some (7 ∷ []) else none

abbrev full : Log
full = record { handle = opened; current = some (1 ∷ 2 ∷ []); backups = first_backup }

write_keeps_example :
    ((write small works (5 ∷ 6 ∷ []) full).0 ≡ true)
    × ((write small works (5 ∷ 6 ∷ []) full).1.current ≡ some (5 ∷ 6 ∷ []))
    × ((write small works (5 ∷ 6 ∷ []) full).1.backups 1 ≡ some (1 ∷ 2 ∷ []))
    × ((write small works (5 ∷ 6 ∷ []) full).1.backups 2 ≡ shifted 2 first_backup 0)
write_keeps_example =
    write_keeps works (λ i. refl) small full (5 ∷ 6 ∷ []) (1 ∷ 2 ∷ []) 0 refl refl refl refl refl

-- the first backup has moved
moved_up : shifted 2 first_backup 0 ≡ some (7 ∷ [])
moved_up = refl

few : FewBackups small full
few k = ground arith

write-IsBounded_example : IsBounded small (5 ∷ 6 ∷ []) (write small works (5 ∷ 6 ∷ []) full)
write-IsBounded_example = write-IsBounded small works (5 ∷ 6 ∷ []) full few

-- the current file cannot be renamed, while a viewer has it open
abbrev held : Disk
held = record { opens = true; renames = λ i. false; breaks_off = none }

fails : (rotate_if_needed small held 2 full).0 ≡ false
unfolding rotate_if_needed rotate shift
fails = refl

failed_for_good_example :
    ((write small held (5 ∷ 6 ∷ []) full).0 ≡ false)
    × (write_all small ((works, 8 ∷ []) ∷ []) (write small held (5 ∷ 6 ∷ []) full).1
        ≡ (0, (write small held (5 ∷ 6 ∷ []) full).1))
failed_for_good_example =
    failed_for_good small held (5 ∷ 6 ∷ []) full ((works, 8 ∷ []) ∷ []) few refl fails

-- a full disk: the file stays open, and the next write succeeds
recovers :
    write_all small
      ((record works { breaks_off = some 0 }, 8 ∷ []) ∷ (works, 9 ∷ []) ∷ [])
      (record full { current = some [] })
    ≡ (1, record full { current = some (9 ∷ []) })
unfolding write_all write write_by rotate_if_needed
recovers = refl

-- three backups are kept where two are configured
abbrev two_backups : Log
two_backups = record full { backups = set_backup 2 (some (9 ∷ [])) first_backup }

one_more : (write small works (5 ∷ 6 ∷ []) two_backups).1.backups 3 ≡ some (9 ∷ [])
unfolding write write_by rotate_if_needed rotate shift set_backup open_file
one_more = refl
