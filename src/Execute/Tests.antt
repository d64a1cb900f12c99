-- ===== src/Execute/Tests.antt =====
-- Runs of executeCommand.
use appcenter_agent.Common.{
  ℕ, ◌+◌, ◌≡◌, refl, true, false, none, some, List, [], ◌∷◌, map, pos, nat_eq, int_eq, string_eq,
}
use appcenter_agent.Common.Dict.{lookup, insert, delete}
use appcenter_agent.Api.{Command}
use appcenter_agent.Common.Text.{
  trim_left, trim_right, trim_space, trim_slashes, lower_code, lowered, same_codes,
}
use appcenter_agent.Files.{Bytes, Files, verify_file_hash}
use appcenter_agent.Config.{default_config}
use appcenter_agent.Downloader.{Response, Server, download_file, on_response, store_body}
use appcenter_agent.Files.{trim_prefix}
use appcenter_agent.Execute.Names.{ext, has_ext}
use appcenter_agent.Execute.{
  exited, install, base_path_of, find_existing_download_path, result_with, execute_command,
}
use appcenter_agent.Execute.Verified.{Verified, execute_command-Verified}

abbrev serves : Server
serves url r =
    some (record { status = 200; body = 1 ∷ 2 ∷ []; broken = false; filename = some "setup.MSI" })

abbrev toy_hash : Bytes → List ℕ
toy_hash content = map (λ b. b + 97) content

abbrev install_seven : Command
install_seven = record {
  task_id = pos 7;
  action = "install";
  app_id = pos 12;
  app_name = "app";
  app_version = "3.1";
  download_url = "/app.msi";
  file_hash = "SHA256:BC";
  file_size_bytes = pos 2;
  install_args = "";
  force_update = false;
  priority = pos 1;
}

is_installed :
    (execute_command serves toy_hash
      (λ p. exited (pos 3010))
      true
      (pos 4)
      (pos 5)
      default_config
      install_seven
      []).result
    ≡ result_with (pos 3010) "3.1" (pos 4) (pos 5) "Installation completed successfully"
unfolding has_ext execute_command base_path_of find_existing_download_path install ext lookup insert
    delete lowered lower_code download_file on_response store_body verify_file_hash trim_prefix
    same_codes trim_slashes trim_right trim_space trim_left
is_installed = refl

execute_command-Verified_example : Verified toy_hash install_seven (
    execute_command serves toy_hash
      (λ p. exited (pos 3010))
      true
      (pos 4)
      (pos 5)
      default_config
      install_seven
      [])
execute_command-Verified_example =
    execute_command-Verified serves toy_hash (λ p. exited (pos 3010)) true (pos 4) (pos 5)
      default_config install_seven []

abbrev full : Response
full = record { status = 416; body = []; broken = false; filename = none }

abbrev refuses : Server
refuses url none = none
refuses url (some n) = some full

abbrev left_over : Files
left_over = ("C:\\ProgramData\\AppCenter\\downloads\\task_7_app_12.msi", 1 ∷ 2 ∷ []) ∷ []
