-- ===== src/Service/Tracking.antt =====
-- Which announcements the tracker holds.
use appcenter_agent.Common.{
  ℕ, ◌≡◌, refl, ◌∙◌, subst, inl, inr, Bool, true, false, Option, none, some, List, [], ◌∷◌, arith,
  Bool-cases, ℤ, is_positive, ◌==◌, nat_eq, int_eq, string_eq, All, All-mono, All-both,
}
use appcenter_agent.Common.Dict.{lookup, delete, All-insert, All-delete}
use appcenter_agent.Common.Text.{codes, trim_space}
use appcenter_agent.Json.{Json, JsonObject, null, flag, number, text, other}
use mathlib.Core.Option.{some-injective}
use appcenter_agent.Service.{parse_int}
use appcenter_agent.Service.Announcements.{
  PendingAnnouncement, Tracker, add, remove, Board, show, handle_announcement_push, close_box,
  without_first, has_box, positive, parse_announcement_id, positive_or_none,
}

pub data Event : Type 0 where
  pushed : ℕ → JsonObject → Event
  closed : Bool → ℤ → Event

unfoldable pub after : Event → Board → Board
after (pushed now payload) b = handle_announcement_push now payload b
after (closed sent id) b = close_box sent id b

unfoldable pub run : List Event → Board → Board
unfolding after
run [] b = b
run (e ∷ events) b = run events (after e b)

abbrev pub empty_board : Board
empty_board = record { tracker = []; boxes = []; acks = [] }

-- what is tracked is on the screen, under a positive identifier
abbrev pub IsShown : Board → Type 0
IsShown b =
    All (λ (entry : ℤ × PendingAnnouncement). has_box entry.0 b.boxes ≡ true) b.tracker
    × All (λ id. is_positive id ≡ true) b.boxes

positive_some : (n : ℤ) {id : ℤ} → positive n ≡ some id → is_positive id ≡ true
positive_some n {id} e = elim (Bool-cases (is_positive n)) [
  | inl p ↦
      let same : some n ≡ some id = rw p at e in
      subst (λ k. is_positive k ≡ true) (some-injective _ _ same) p
  | inr p ↦ let clash : none ≡ some id = rw p at e in cc
]

or_none_some : (o : Option ℤ) {id : ℤ} → positive_or_none o ≡ some id → is_positive id ≡ true
or_none_some none e = cc
or_none_some (some n) e = positive_some n e

parsed_positive :
    (o : Option Json) (id : ℤ) → parse_announcement_id o ≡ some id → is_positive id ≡ true
unfolding parse_announcement_id
parsed_positive (some (number n)) id e = positive_some n e
parsed_positive (some (text s)) id e = or_none_some (parse_int (codes (trim_space s))) e
parsed_positive none id e = cc
parsed_positive (some null) id e = cc
parsed_positive (some (flag b)) id e = cc
parsed_positive (some other) id e = cc

show-IsShown :
    (now : ℕ) (payload : JsonObject) (o : Option ℤ) (b : Board)
    → ((id : ℤ) → o ≡ some id → is_positive id ≡ true)
    → IsShown b
    → IsShown (show now payload o b)
unfolding show add
show-IsShown now payload none b p h = h
show-IsShown now payload (some id) b p h = (
  All-insert _ id _ b.tracker (let same = (int_eq.test_iff id id).1 refl in rw same refl)
      (All-mono _ _ (λ entry shown. ground (arith, shown)) b.tracker h.0),
  (p id refl, h.1),
)

has_box-other :
    (id k : ℤ) (boxes : List ℤ)
    → (id == k) ≡ false
    → has_box k (without_first id boxes) ≡ has_box k boxes
has_box-other id k [] h = refl
has_box-other id k (j ∷ boxes) h = ground (
  arith,
  has_box-other id k boxes h,
  int_eq.test_iff j id,
  int_eq.test_iff j k,
  int_eq.test_iff id k,
)

All-without_first :
    (id : ℤ) (boxes : List ℤ)
    → All (λ k. is_positive k ≡ true) boxes
    → All (λ k. is_positive k ≡ true) (without_first id boxes)
All-without_first id [] h = tt
All-without_first id (j ∷ boxes) h = elim (Bool-cases (j == id)) [
  | inl e ↦ rw e h.1
  | inr e ↦ rw e (h.0, All-without_first id boxes h.1)
]

gone-delete :
    (id : ℤ) (t : Tracker)
    → All (λ (entry : ℤ × PendingAnnouncement). (id == entry.0) ≡ false) (delete id t)
unfolding delete
gone-delete id [] = tt
gone-delete id ((j, ann) ∷ t) = elim (Bool-cases (j == id)) [
  | inl e ↦ rw e (gone-delete id t)
  | inr e ↦ rw e (ground (arith, e, int_eq.test_iff j id, int_eq.test_iff id j), gone-delete id t)
]

close_box-IsShown : (sent : Bool) (id : ℤ) (b : Board) → IsShown b → IsShown (close_box sent id b)
unfolding close_box remove
close_box-IsShown sent id b h = elim (Bool-cases (has_box id b.boxes)) [
  | inr e ↦ rw e h
  | inl e ↦ rw e (
    All-both _ _ _ (λ entry shown gone. has_box-other id entry.0 b.boxes gone ∙ shown)
        (delete id b.tracker) (All-delete _ id b.tracker h.0) (gone-delete id b.tracker),
    All-without_first id b.boxes h.1,
  )
]

after-IsShown : (e : Event) (b : Board) → IsShown b → IsShown (after e b)
unfolding after handle_announcement_push
after-IsShown (pushed now payload) b h =
    show-IsShown now payload (parse_announcement_id (lookup "announcement_id" payload)) b
      (parsed_positive (lookup "announcement_id" payload)) h
after-IsShown (closed sent id) b h = close_box-IsShown sent id b h

run-IsShown : (events : List Event) (b : Board) → IsShown b → IsShown (run events b)
unfolding run
run-IsShown [] b h = h
run-IsShown (e ∷ events) b h = run-IsShown events (after e b) (after-IsShown e b h)

-- After any announcements and any closing of message boxes, from none, everything that the
-- tracker holds has an open message box, and the identifiers of all open boxes are positive.
pub tracked-IsShown : (events : List Event) → IsShown (run events empty_board)
unfolding lookup
tracked-IsShown events = run-IsShown events empty_board (tt, tt)
