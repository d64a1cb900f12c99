-- ===== src/Sessions/Tests.antt =====
-- Runs of the sessions.
use appcenter_agent.Common.{ℕ, ◌≡◌, refl, none, some, List, [], ◌∷◌, nat_eq, int_eq, string_eq}
use appcenter_agent.Common.Dict.{lookup, insert}
use appcenter_agent.Common.Sort.{place, sort}
use appcenter_agent.Common.Text.{trim_left, trim_right, trim_space, lower_code, lowered, same_codes}
use appcenter_agent.Sessions.{
  WtsSession, has_id, add_id, add_active, add_console, candidate_session_ids, console_first,
  first_console, ordered_session_ids, active_session_for_user_process, reported_user, report_user,
  report_users, logged_in, get_logged_in_sessions, normalize_session_state, normalize_session_type,
  session_state_from_wts, is_reportable_session_state,
}
use appcenter_agent.Sessions.Once.{
  count, one_if, is_candidate, ordered_once, has_user, count_user, reported_once,
}

abbrev session : ℕ → ℕ → WtsSession
session id state = record {
  session_id = id;
  state = state;
  user_name = "ann";
  domain_name = "corp";
  client_protocol = 2;
}

-- a session that was left, and the one that the user is in
abbrev two_sessions : List WtsSession
two_sessions = session 2 4 ∷ session 5 0 ∷ session 3 0 ∷ []

ordered_once_example :
    count 5 (ordered_session_ids two_sessions (some 1) (some 5))
    ≡ one_if (is_candidate 5 two_sessions (some 1))
ordered_once_example = ordered_once two_sessions (some 1) (some 5) 5

order : ordered_session_ids two_sessions (some 1) (some 5) ≡ 5 ∷ 1 ∷ 3 ∷ []
unfolding ordered_session_ids candidate_session_ids add_active add_console add_id has_id sort place
    console_first first_console
order = refl

chosen : active_session_for_user_process two_sessions none none (some 9) ≡ 3
unfolding active_session_for_user_process ordered_session_ids candidate_session_ids add_active
    add_console add_id has_id sort place console_first first_console
chosen = refl

reported_once_example :
    count_user "corp\\ann" (get_logged_in_sessions two_sessions)
    ≡ one_if (has_user "corp\\ann" two_sessions)
reported_once_example = reported_once two_sessions "corp\\ann"

-- the user is active, and is reported as disconnected
masked :
    get_logged_in_sessions two_sessions
    ≡ record {
      username = "corp\\ann";
      session_type = "rdp";
      session_state = "disconnected";
      logon_id = "2";
    }
      ∷ []
unfolding get_logged_in_sessions report_users report_user reported_user logged_in lookup insert
    trim_space trim_left trim_right normalize_session_type session_state_from_wts
    is_reportable_session_state
masked = refl

abbreviated : normalize_session_state " DISC " ≡ "disconnected"
unfolding normalize_session_state lowered lower_code trim_space trim_left trim_right same_codes
abbreviated = refl
