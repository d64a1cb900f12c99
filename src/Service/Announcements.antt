-- ===== src/Service/Announcements.antt =====
-- Announcements: internal/announcement/tracker.go, and handleAnnouncementPush with what it calls in
-- cmd/service/core.go. Each message box is a goroutine of its own, which ends when the user closes the
-- box; an announcement is acknowledged then.
use appcenter_agent.Common.{
  ℕ, ◌+◌, ◌*◌, ◌^◌, String, Bool, true, false, ◌&&◌, Option, none, some, List, [], ◌∷◌, leb,
  if◌then◌else◌, ℤ, is_positive, ◌==◌, nat_eq, int_eq, string_eq, is_blank, keep_if,
}
use appcenter_agent.Common.Dict.{Dict, lookup, values, insert, delete}
use appcenter_agent.Common.Text.{codes, trim_space}
use appcenter_agent.Json.{Json, JsonObject, number, text, get_text}
use appcenter_agent.Service.{parse_int}

-- PendingAnnouncement
pub record PendingAnnouncement : Type 0 where
  pub id : ℤ
  pub title : String
  pub message : String
  pub priority : String
  pub shown_at : ℕ

-- Tracker
abbrev pub Tracker : Type 0
Tracker = Dict ℤ PendingAnnouncement

-- Add
unfoldable pub add : ℕ → ℤ → String → String → String → Tracker → Tracker
add now id title message priority t =
    insert id
      (record { id = id; title = title; message = message; priority = priority; shown_at = now }) t

-- Remove
unfoldable pub remove : ℤ → Tracker → Tracker
remove id t = delete id t

abbrev pub five_minutes : ℕ
five_minutes = 5 * 60 * 10 ^ 9

-- GetCriticalPending; at a time in the first five minutes of the clock the threshold is before it
unfoldable pub is_overdue : ℕ → PendingAnnouncement → Bool
is_overdue now ann = ann.priority == "critical" && leb (ann.shown_at + five_minutes) now

unfoldable pub get_critical_pending : ℕ → Tracker → List PendingAnnouncement
unfolding is_overdue
get_critical_pending now t = keep_if (is_overdue now) (values t)

abbrev pub positive : ℤ → Option ℤ
positive n = if is_positive n then some n else none

abbrev pub positive_or_none : Option ℤ → Option ℤ
positive_or_none none = none
positive_or_none (some n) = positive n

-- parseAnnouncementID
unfoldable pub parse_announcement_id : Option Json → Option ℤ
parse_announcement_id (some (number n)) = positive n
parse_announcement_id (some (text s)) = positive_or_none (parse_int (codes (trim_space s)))
parse_announcement_id _ = none

-- the tracker, the boxes that are open, and the acknowledgements that were sent
pub record Board : Type 0 where
  pub tracker : Tracker
  pub boxes : List ℤ
  pub acks : List ℤ

abbrev pub priority_or_normal : String → String
unfolding trim_space
priority_or_normal priority = if is_blank (trim_space priority) then "normal" else priority

unfoldable pub show : ℕ → JsonObject → Option ℤ → Board → Board
unfolding add get_text priority_or_normal
show now payload none b = b
show now payload (some id) b = record b {
  tracker =
      add now id (get_text payload "title") (get_text payload "message")
        (priority_or_normal (get_text payload "priority")) b.tracker;
  boxes = id ∷ b.boxes;
}

-- handleAnnouncementPush
unfoldable pub handle_announcement_push : ℕ → JsonObject → Board → Board
unfolding parse_announcement_id show
handle_announcement_push now payload b =
    show now payload (parse_announcement_id (lookup "announcement_id" payload)) b

-- processPendingAnnouncements, on the items that are objects
unfoldable pub process_pending_announcements : ℕ → List (Option JsonObject) → Board → Board
unfolding handle_announcement_push
process_pending_announcements now [] b = b
process_pending_announcements now (none ∷ items) b = process_pending_announcements now items b
process_pending_announcements now (some payload ∷ items) b =
    process_pending_announcements now items (handle_announcement_push now payload b)

abbrev pub without_first : ℤ → List ℤ → List ℤ
without_first id [] = []
without_first id (j ∷ boxes) =
    let rest = without_first id boxes in if j == id then boxes else j ∷ rest

abbrev pub has_box : ℤ → List ℤ → Bool
has_box id [] = false
has_box id (j ∷ boxes) = let rest = has_box id boxes in if j == id then true else rest

-- the rest of the goroutine, once the user has closed a box; `sent` is the answer of SendEvent
unfoldable pub close_box : Bool → ℤ → Board → Board
unfolding remove
close_box sent id b =
    if has_box id b.boxes
    then record {
      tracker = remove id b.tracker;
      boxes = without_first id b.boxes;
      acks = if sent then id ∷ b.acks else b.acks;
    }
    else b
