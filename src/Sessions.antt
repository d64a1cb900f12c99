-- ===== src/Sessions.antt =====
-- The sessions of Windows: which of them internal/remotesupport/process_windows.go tries, in which
-- order, and which ones internal/system/sessions_windows.go reports, with sessions_common.go. What the
-- Terminal Services return is an input.
pub mod Once
pub mod Tests
use appcenter_agent.Common.{
  ℕ, zero, suc, ◌+◌, ◌-◌, ◌*◌, ◌/◌, ◌%◌, ◌^◌, ◌≤◌, ◌<◌, String, ◌≡◌, refl, sym, ap, ◌∙◌, subst, ◌≢◌,
  ◌↔◌, ◌⊎◌, inl, inr, Bool, true, false, not, ◌&&◌, ◌||◌, Option, none, some, List, [], ◌∷◌, ◌++◌,
  map, arith, eq_iff, ltb, leb, if◌then◌else◌, nat_beq, ltb→lt, lt→ltb, leb→le, tests, Bool-cases,
  Option-cases, is_some, ℤ, pos, negsuc, int_beq, int_ltb, is_positive, int_beq_iff, int_ltb_irrefl,
  int_ltb_asymm, int_ltb_neg_trans, int_ltb_antisymm, HasEq, ◌==◌, nat_eq, int_eq, string_eq,
  is_blank, or_empty, first_non_blank, length, keep_if, head?, length-append, All, All-mono,
  All-map, All-of_map, All-keep_if, All-of_keep_if, All-both,
}
use appcenter_agent.Common.Dict.{
  Dict, lookup, contains, values, keys, Distinct, insert, delete, lookup-insert, lookup-delete,
  contains-insert, lookup-insert_self, lookup-delete_self, contains-delete, Distinct-insert,
  Distinct-delete, All-insert, All-delete, All-lookup, lookup_own,
}
use appcenter_agent.Common.Sort.{
  place, sort, All-place, All-sort, head-sort-All, head-sort-none, head-sort-min,
}
use appcenter_agent.Api.{
  Command, TaskStatusRequest, InstalledApp, RemoteSupportRequest, RemoteSupportEnd,
}
use appcenter_agent.Common.Text.{
  codes, is_space, trim_left, trim_right, trim_space, trim_slashes, lower_code, lowered, same_codes,
  same_codes_refl, append, starts_with_slash, resolve_url, join,
}
use appcenter_agent.Json.{
  Json, JsonObject, null, flag, number, text, other, get_text, text_or_empty,
}
use appcenter_agent.Execute.Names.{show_int}

-- a session of WTSEnumerateSessions: its number and its state, 0 for an active one and 4 for one
-- that is disconnected
pub record WtsSession : Type 0 where
  pub session_id : ℕ
  pub state : ℕ
  pub user_name : String
  pub domain_name : String
  pub client_protocol : ℕ

abbrev pub wts_active : ℕ
wts_active = 0

abbrev pub wts_disconnected : ℕ
wts_disconnected = 4

-- the numbers of the map's keys: none is there twice
unfoldable pub has_id : ℕ → List ℕ → Bool
has_id id [] = false
has_id id (j ∷ ids) = let rest = has_id id ids in if nat_beq j id then true else rest

unfoldable pub add_id : ℕ → List ℕ → List ℕ
unfolding has_id
add_id id ids = if has_id id ids then ids else id ∷ ids

unfoldable pub add_active : List WtsSession → List ℕ → List ℕ
unfolding add_id
add_active [] ids = ids
add_active (s ∷ sessions) ids =
    let rest = add_active sessions ids in
    if nat_beq s.state wts_active then add_id s.session_id rest else rest

unfoldable pub add_console : Option ℕ → List ℕ → List ℕ
unfolding add_id
add_console none ids = ids
add_console (some console) ids = add_id console ids

-- candidateSessionIDs; `console` is the session at the console, if one is attached
unfoldable pub candidate_session_ids : List WtsSession → Option ℕ → List ℕ
unfolding add_active add_console sort
candidate_session_ids sessions console = sort ltb (add_console console (add_active sessions []))

-- the sessions but the one at the console
abbrev pub without : ℕ → List ℕ → List ℕ
without console [] = []
without console (id ∷ ids) =
    let rest = without console ids in if nat_beq id console then rest else id ∷ rest

unfoldable pub first_console : ℕ → List ℕ → List ℕ
unfolding has_id
first_console console ids =
    if has_id console ids then console ∷ without console ids else without console ids

unfoldable pub console_first : Option ℕ → List ℕ → List ℕ
unfolding first_console
console_first none ids = ids
console_first (some console) ids = first_console console ids

-- orderedSessionIDs; the session at the console is asked for twice
unfoldable pub ordered_session_ids : List WtsSession → Option ℕ → Option ℕ → List ℕ
unfolding candidate_session_ids console_first
ordered_session_ids sessions console now =
    let all = candidate_session_ids sessions console in
    if leb (length all) 1 then all else console_first now all

abbrev pub first_or : Option ℕ → List ℕ → ℕ
first_or none [] = 0
first_or (some console) [] = console
first_or console (id ∷ ids) = id

-- activeSessionForUserProcess, which may ask a third time
unfoldable pub active_session_for_user_process :
    List WtsSession → Option ℕ → Option ℕ → Option ℕ → ℕ
unfolding ordered_session_ids
active_session_for_user_process sessions console now later =
    first_or later (ordered_session_ids sessions console now)

-- LoggedInSession
pub record LoggedInSession : Type 0 where
  pub username : String
  pub session_type : String
  pub session_state : String
  pub logon_id : String

-- isReportableSessionState
unfoldable pub is_reportable_session_state : ℕ → Bool
is_reportable_session_state state = nat_beq state wts_active || nat_beq state wts_disconnected

-- sessionStateFromWTS
unfoldable pub session_state_from_wts : ℕ → String
session_state_from_wts state = if nat_beq state wts_disconnected then "disconnected" else "active"

-- normalizeSessionType
unfoldable pub normalize_session_type : ℕ → String
normalize_session_type protocol = if nat_beq protocol 2 then "rdp" else "local"

-- normalizeSessionState; lowering does not change what is trimmed
unfoldable pub normalize_session_state : String → String
unfolding lowered trim_space same_codes
normalize_session_state raw =
    let state = lowered (trim_space raw) in
    if same_codes state (codes "disconnected") || same_codes state (codes "disc")
    then "disconnected"
    else "active"

abbrev pub qualified : String → String → String
qualified domain user = if is_blank domain then user else append domain (append "\\" user)

-- the user of a session that is reported
unfoldable pub reported_user : WtsSession → Option String
unfolding is_reportable_session_state trim_space
reported_user s =
    let user = trim_space s.user_name in
    if not (is_reportable_session_state s.state)
    then none
    else if is_blank user
    then none
    else some (qualified (trim_space s.domain_name) user)

unfoldable pub logged_in : String → WtsSession → LoggedInSession
unfolding normalize_session_type session_state_from_wts
logged_in full s = record {
  username = full;
  session_type = normalize_session_type s.client_protocol;
  session_state = session_state_from_wts s.state;
  logon_id = show_int (pos s.session_id);
}

-- the rest of the loop; `seen` holds the users so far, and `later` is what the next sessions add
unfoldable pub report_user :
    WtsSession
    → Option String
    → Dict String Bool
    → (Dict String Bool → List LoggedInSession)
    → List LoggedInSession
unfolding logged_in
report_user s none seen later = later seen
report_user s (some full) seen later =
    if contains full seen then later seen else logged_in full s ∷ later (insert full true seen)

unfoldable pub report_users : List WtsSession → Dict String Bool → List LoggedInSession
unfolding reported_user report_user
report_users [] seen = []
report_users (s ∷ sessions) seen = report_user s (reported_user s) seen (report_users sessions)

-- GetLoggedInSessions
unfoldable pub get_logged_in_sessions : List WtsSession → List LoggedInSession
unfolding report_users
get_logged_in_sessions sessions = report_users sessions []
