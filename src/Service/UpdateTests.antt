-- ===== src/Service/UpdateTests.antt =====
-- Runs of the service's updates and messages.
use appcenter_agent.Common.{◌≡◌, refl, true, none, some, [], ◌∷◌, nat_eq, int_eq, string_eq}
use appcenter_agent.Common.Dict.{lookup, insert}
use appcenter_agent.Common.Text.{trim_left, trim_right, trim_space, lower_code, lowered, same_codes}
use appcenter_agent.Json.{text, get_text}
use appcenter_agent.Config.{default_config}
use appcenter_agent.Updater.{helper_call, staged_update, done, HelperCall}
use appcenter_agent.Updater.Tests.{
  toy_hash, update_server, storage, update_offer, fresh, update_two, with_update, is_applied,
  is_staged,
}
use appcenter_agent.Service.SelfUpdate.{
  Payload, World, is_payload_for_current_platform, copy_key, extract_self_update_changes,
  apply_when_idle, stage, apply_self_update_changes, on_broadcast_self_update, on_poll_result,
}
use appcenter_agent.Service.Restarts.{
  Checked, broadcast, update_on, IsAdmitted, update_on-IsAdmitted, broadcast_applies,
}

abbrev world : World
world = record {
  server = update_server;
  sha256 = toy_hash;
  io = storage;
  now = 0;
  starts = true;
  cfg = default_config;
  cfg_path = "c.yaml";
  service_exe = "svc.exe";
}

abbrev payload : Payload
payload = record { entries = ("platform", text "Windows") ∷ []; changes = some update_offer }

extracted : extract_self_update_changes payload ≡ update_offer
unfolding extract_self_update_changes copy_key lookup insert
extracted = refl

ours : is_payload_for_current_platform "windows" payload ≡ true
unfolding is_payload_for_current_platform lookup get_text trim_space trim_left trim_right lowered
    lower_code same_codes
ours = refl

abbrev call_two : HelperCall
call_two = helper_call default_config "c.yaml" "svc.exe" update_two

idle : apply_when_idle world 0 with_update ≡ some call_two
unfolding apply_when_idle
idle = rw is_applied refl

polled : (on_poll_result world 0 none with_update).0 ≡ some call_two
unfolding on_poll_result
polled = rw idle refl

broadcast_applied :
    update_on (broadcast payload) "windows" world 0 3 with_update ≡ (some call_two, with_update)
unfolding update_on on_broadcast_self_update apply_self_update_changes
broadcast_applied = rw (ours, extracted, idle) refl

update_on-IsAdmitted_example :
    IsAdmitted (broadcast payload) "windows" world 0 3 with_update with_update
    × Checked world with_update call_two
update_on-IsAdmitted_example =
    update_on-IsAdmitted (broadcast payload) "windows" world 0 3 with_update with_update
      {call = call_two} broadcast_applied

stages : (stage world (extract_self_update_changes payload) fresh).0 ≡ done
unfolding stage
stages = rw extracted is_staged

broadcast_applies_example : on_broadcast_self_update "windows" world 0 0 payload fresh ≡ (
  some (
      helper_call default_config "c.yaml" "svc.exe"
        (staged_update 0 default_config (extract_self_update_changes payload))),
  (stage world (extract_self_update_changes payload) fresh).1,
)
broadcast_applies_example =
    broadcast_applies "windows" world payload fresh ours refl stages refl refl refl refl
