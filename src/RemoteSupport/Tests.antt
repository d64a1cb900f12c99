-- ===== src/RemoteSupport/Tests.antt =====
-- Runs of the session manager, and each theorem at an input that meets its hypotheses.
use appcenter_agent.Common.{
  ◌≡◌, refl, ◌⊎◌, true, false, some, List, [], ◌∷◌, is_some, pos, nat_eq, int_eq, string_eq,
}
use appcenter_agent.Api.{RemoteSupportRequest}
use appcenter_agent.RemoteSupport.{
  pending, active, SessionManager, new_session_manager, Answers, entered, request, done, advance,
}
use appcenter_agent.Common.Text.{trim_space}
use appcenter_agent.RemoteSupport.Run.{finish, at_rest}
use appcenter_agent.RemoteSupport.Sequential.{succeeds, uninterrupted}
use appcenter_agent.RemoteSupport.Consent.{run_under, agreed_in, granted_needs_consent}
use appcenter_agent.RemoteSupport.Interleaving.{
  System, Event, requested, end_signal, user_ends, runs, step, run, IdleIsFree, lost_for_ever,
  run-IdleIsFree,
}

abbrev session_seven : RemoteSupportRequest
session_seven = record {
  session_id = pos 7;
  admin_name = "admin";
  reason = "help";
  requested_at = "";
  timeout_at = "";
  requires_approval = true;
}

abbrev all_well : Answers
all_well = record {
  available = true;
  started = some 44;
  listening = true;
  dialog = some (true, pos 2);
  approve = some (some " secret ");
  ready = true;
}

seven_is_served : succeeds (λ t. all_well) session_seven ≡ true
unfolding trim_space
seven_is_served = refl

uninterrupted_example :
    let (t, m) = finish 14 (λ t. all_well) (request session_seven entered) at_rest in
    (t ≡ done) × ((m.state ≡ active) × (m.session ≡ pos 7) × (is_some m.vnc.process ≡ true))
unfolding trim_space
uninterrupted_example = uninterrupted (λ t. all_well) session_seven

abbrev undisturbed : List (SessionManager × Answers)
undisturbed =
    (at_rest, all_well)
    ∷ (at_rest, all_well)
    ∷ (at_rest, all_well)
    ∷ (at_rest, all_well)
    ∷ (record at_rest { state = pending; session = pos 7 }, all_well)
    ∷ (at_rest, all_well)
    ∷ []

granted_needs_consent_example :
    (session_seven.requires_approval ≡ false) ⊎ (agreed_in undisturbed ≡ true)
unfolding run_under advance
granted_needs_consent_example = granted_needs_consent session_seven undisturbed refl

abbrev at_start : System
at_start = record { manager = new_session_manager; threads = [] }

-- The session ends between the check that it is still pending and the answer of the server.
abbrev ends_while_reporting : List Event
ends_while_reporting =
    requested session_seven
    ∷ runs 0 all_well
    ∷ runs 0 all_well
    ∷ runs 0 all_well
    ∷ runs 0 all_well
    ∷ runs 0 all_well
    ∷ end_signal (record { session_id = pos 7 })
    ∷ runs 1 all_well
    ∷ runs 1 all_well
    ∷ runs 1 all_well
    ∷ runs 1 all_well
    ∷ runs 1 all_well
    ∷ runs 0 all_well
    ∷ runs 0 all_well
    ∷ runs 0 all_well
    ∷ runs 0 all_well
    ∷ runs 0 all_well
    ∷ runs 0 all_well
    ∷ runs 0 all_well
    ∷ runs 0 all_well
    ∷ []

abbrev lost_system : System
lost_system = run at_start ends_while_reporting

lost_system_state : (lost_system.manager.state ≡ active) × (lost_system.manager.session ≡ pos 0)
unfolding run step advance trim_space new_session_manager
lost_system_state = (refl, refl)

lost_for_ever_example :
    (run lost_system (requested session_seven ∷ runs 2 all_well ∷ user_ends ∷ [])).manager
    ≡ lost_system.manager
unfolding run step advance trim_space new_session_manager
lost_for_ever_example =
    lost_for_ever lost_system (requested session_seven ∷ runs 2 all_well ∷ user_ends ∷ [])
      (refl, refl) (refl, (refl, tt))

run-IdleIsFree_example : IdleIsFree lost_system.manager
unfolding new_session_manager
run-IdleIsFree_example = run-IdleIsFree at_start ends_while_reporting (λ e. refl)
