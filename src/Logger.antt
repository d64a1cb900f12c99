-- ===== src/Logger.antt =====
-- The log file of pkg/utils/logger.go and its rotation. The files are the current one and those under
-- the path with a number behind it. Closing an open file and reading its size succeed, and so does
-- removing a backup; whether a file can be opened, renamed or written is an input.
pub mod Shifting
pub mod Rotation
pub mod Bounds
pub mod Tests
use appcenter_agent.Common.{
  ℕ, zero, suc, ◌+◌, ◌-◌, ◌*◌, ◌/◌, ◌%◌, ◌^◌, ◌≤◌, ◌<◌, String, ◌≡◌, refl, sym, ap, ◌∙◌, subst, ◌≢◌,
  ◌↔◌, ◌⊎◌, inl, inr, Bool, true, false, not, ◌&&◌, ◌||◌, Option, none, some, List, [], ◌∷◌, ◌++◌,
  map, arith, eq_iff, ltb, leb, if◌then◌else◌, nat_beq, ltb→lt, lt→ltb, leb→le, tests, Bool-cases,
  Option-cases, is_some, ℤ, pos, negsuc, int_beq, int_ltb, is_positive, int_beq_iff, int_ltb_irrefl,
  int_ltb_asymm, int_ltb_neg_trans, int_ltb_antisymm, HasEq, ◌==◌, nat_eq, int_eq, string_eq,
  is_blank, or_empty, first_non_blank, length, keep_if, head?, length-append, All, All-mono,
  All-map, All-of_map, All-keep_if, All-of_keep_if, All-both,
}
use appcenter_agent.Common.Dict.{
  Dict, lookup, contains, values, keys, Distinct, insert, delete, lookup-insert, lookup-delete,
  contains-insert, lookup-insert_self, lookup-delete_self, contains-delete, Distinct-insert,
  Distinct-delete, All-insert, All-delete, All-lookup, lookup_own,
}
use appcenter_agent.Common.Sort.{
  place, sort, All-place, All-sort, head-sort-All, head-sort-none, head-sort-min,
}
use appcenter_agent.Api.{
  Command, TaskStatusRequest, InstalledApp, RemoteSupportRequest, RemoteSupportEnd,
}
use appcenter_agent.Common.Text.{
  codes, is_space, trim_left, trim_right, trim_space, trim_slashes, lower_code, lowered, same_codes,
  same_codes_refl, append, starts_with_slash, resolve_url, join,
}
use appcenter_agent.Json.{
  Json, JsonObject, null, flag, number, text, other, get_text, text_or_empty,
}
use appcenter_agent.Files.{Bytes, Files, verify_file_hash}
use appcenter_agent.Inventory.Scanner.{signed}

-- rotatingWriter.file: nil, an open file, or one that was closed and not replaced
pub data Handle : Type 0 where
  unset : Handle
  opened : Handle
  stale : Handle

-- rotatingWriter
pub record RotatingWriter : Type 0 where
  pub max_bytes : ℤ
  pub max_backups : ℕ

-- the writer's handle and the files
pub record Log : Type 0 where
  pub handle : Handle
  pub current : Option Bytes
  pub backups : ℕ → Option Bytes

-- what the file system answers during a write: opening the path, renaming the backup of this
-- number, where 0 is the current file, and writing the entry: `none` if all of it is written, and
-- else how many bytes at most are before the error
pub record Disk : Type 0 where
  pub opens : Bool
  pub renames : ℕ → Bool
  pub breaks_off : Option ℕ

abbrev pub positive_or : ℕ → ℤ → ℕ
positive_or default (pos zero) = default
positive_or default (pos (suc n)) = suc n
positive_or default (negsuc n) = default

abbrev pub or_no_bytes : Option Bytes → Bytes
or_no_bytes none = []
or_no_bytes (some bytes) = bytes

-- open, which makes the file where it is missing
unfoldable pub open_file : Disk → Log → Bool × Log
open_file disk log =
    if disk.opens
    then (true, record log { handle = opened; current = some (or_no_bytes log.current) })
    else (false, log)

-- NewLogger: the writer, and what opening it gives
unfoldable pub new_logger : ℤ → ℤ → Disk → Log → RotatingWriter × (Bool × Log)
unfolding open_file signed
new_logger max_size_mb max_backups disk log = (
  record {
    max_bytes = signed (positive_or 10 max_size_mb * 1024 * 1024);
    max_backups = positive_or 5 max_backups;
  },
  open_file disk log,
)

unfoldable pub set_backup : ℕ → Option Bytes → (ℕ → Option Bytes) → ℕ → Option Bytes
set_backup i content backups j = if nat_beq i j then content else backups j

-- one round of the loop: `src` is the number, and `later` the rounds that follow
abbrev pub shift_one :
    Disk
    → ℕ
    → Option Bytes
    → (ℕ → Option Bytes)
    → ((ℕ → Option Bytes) → Bool × (ℕ → Option Bytes))
    → Bool × (ℕ → Option Bytes)
shift_one disk src none backups later = later backups
shift_one disk src (some content) backups later =
    if disk.renames src
    then later (set_backup src none (set_backup (suc src) (some content) backups))
    else (false, set_backup (suc src) none backups)

-- the loop of rotate, from the last backup down to the first
unfoldable pub shift : Disk → ℕ → (ℕ → Option Bytes) → Bool × (ℕ → Option Bytes)
unfolding set_backup
shift disk zero backups = (true, backups)
shift disk (suc i) backups = shift_one disk (suc i) (backups (suc i)) backups (shift disk i)

-- the current file becomes the first backup
abbrev pub put_aside : Disk → Option Bytes → Log → Bool × Log
put_aside disk none log = open_file disk log
put_aside disk (some content) log =
    if disk.renames 0
    then open_file disk
        (record log { current = none; backups = set_backup 1 (some content) log.backups })
    else (false, log)

abbrev pub after_shift : Disk → Log → Bool × (ℕ → Option Bytes) → Bool × Log
after_shift disk log (false, backups) = (false, record log { handle = stale; backups = backups })
after_shift disk log (true, backups) =
    put_aside disk log.current (record log { handle = stale; backups = set_backup 1 none backups })

-- rotate
unfoldable pub rotate : RotatingWriter → Disk → Log → Bool × Log
unfolding shift open_file set_backup
rotate w disk log = after_shift disk log (shift disk w.max_backups log.backups)

-- fi.Size()+incoming <= w.maxBytes
abbrev pub has_room : ℕ → ℤ → Bool
has_room n (pos m) = leb n m
has_room n (negsuc m) = false

unfoldable pub rotate_if_needed : RotatingWriter → Disk → ℕ → Log → Bool × Log
unfolding rotate
rotate_if_needed w disk incoming log =
    if has_room (length (or_no_bytes log.current) + incoming) w.max_bytes
    then (true, log)
    else rotate w disk log

abbrev pub take : ℕ → Bytes → Bytes
take zero p = []
take (suc n) [] = []
take (suc n) (b ∷ p) = b ∷ take n p

-- w.file.Write; after an error the file stays open
abbrev pub append_by : Option ℕ → Bytes → Log → Bool × Log
append_by none p log = (true, record log { current = some (or_no_bytes log.current ++ p) })
append_by (some n) p log =
    (false, record log { current = some (or_no_bytes log.current ++ take n p) })

abbrev pub append_bytes : Disk → Bytes → Bool × Log → Bool × Log
append_bytes disk p (false, log) = (false, log)
append_bytes disk p (true, log) = append_by disk.breaks_off p log

abbrev pub write_opened : RotatingWriter → Disk → Bytes → Bool × Log → Bool × Log
write_opened w disk p (false, log) = (false, log)
write_opened w disk p (true, log) = append_bytes disk p (rotate_if_needed w disk (length p) log)

-- Write
unfoldable pub write_by : RotatingWriter → Disk → Bytes → Handle → Log → Bool × Log
unfolding rotate_if_needed open_file
write_by w disk p unset log = write_opened w disk p (open_file disk log)
write_by w disk p opened log = write_opened w disk p (true, log)
write_by w disk p stale log = (false, log)

unfoldable pub write : RotatingWriter → Disk → Bytes → Log → Bool × Log
unfolding write_by
write w disk p log = write_by w disk p log.handle log

-- Close, where closing succeeds
unfoldable pub close : Log → Log
close log = record log { handle = unset }
