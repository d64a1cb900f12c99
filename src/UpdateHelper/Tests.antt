-- ===== src/UpdateHelper/Tests.antt =====
-- A run of the helper that cannot start the new executable.
use appcenter_agent.Common.{◌≡◌, refl, true, Option, some, [], ◌∷◌, nat_eq, int_eq, string_eq}
use appcenter_agent.Common.Dict.{lookup, insert, delete}
use appcenter_agent.Common.Text.{codes}
use appcenter_agent.Files.{Bytes}
use appcenter_agent.Config.{
  Config, default_config, validate, apply_defaults, Overrides, apply_runtime_overrides, load,
}
use appcenter_agent.UpdateHelper.{
  Arguments, World, copy_file, replace_file, update_config_version, finish_update, main,
}
use appcenter_agent.UpdateHelper.Outcomes.{cannot_start, RolledBack, failed_start-RolledBack}

abbrev arguments : Arguments
arguments = record {
  target_exe = "service.exe";
  new_exe = "update.exe";
  meta_path = "pending_update.json";
  config_path = "config.yaml";
  target_version = "2.0.0";
  stamp = "20260101T000000Z";
}

-- a stand-in for YAML that keeps the version
abbrev toy_encode : Config → Bytes
toy_encode c = codes c.agent.version

abbrev toy_decode : Bytes → Option Config
toy_decode b = some default_config

abbrev no_overrides : Overrides
no_overrides = record {
  env_server_url = "";
  env_secret_key = "";
  registry_server_url = "";
  registry_secret_key = "";
}

abbrev before_update : World
before_update = record {
  files =
      ("service.exe", 1 ∷ [])
      ∷ ("update.exe", 2 ∷ [])
      ∷ ("config.yaml", 9 ∷ [])
      ∷ ("pending_update.json", 8 ∷ [])
      ∷ [];
  running = true;
}

update_works :
    lookup "service.exe"
      (main toy_encode toy_decode no_overrides
        (record cannot_start { starts = true })
        arguments
        before_update).1.files
    ≡ some (2 ∷ [])
unfolding main copy_file replace_file finish_update update_config_version load validate
    apply_defaults apply_runtime_overrides lookup insert delete
update_works = refl

failed_start-RolledBack_example :
    RolledBack toy_encode arguments
      (1 ∷ [])
      default_config
      (main toy_encode toy_decode no_overrides cannot_start arguments before_update)
unfolding lookup load validate apply_defaults apply_runtime_overrides
failed_start-RolledBack_example =
    failed_start-RolledBack toy_encode toy_decode no_overrides arguments before_update
      default_config (1 ∷ []) (2 ∷ []) (refl, refl, refl, refl, refl, refl, refl, refl, refl)
      (refl, refl, refl, refl, refl) refl refl refl refl refl
