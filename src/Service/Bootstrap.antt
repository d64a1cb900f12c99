-- ===== src/Service/Bootstrap.antt =====
-- bootstrapAgent, resolveConfigPath and resolveWritableConfigPath of cmd/service/core.go.
use appcenter_agent.Common.{
  String, Bool, true, false, Option, none, some, if◌then◌else◌, nat_eq, int_eq, string_eq, is_blank,
}
use appcenter_agent.Files.{Bytes, Files}
use appcenter_agent.Config.{Config, save}
use appcenter_agent.Client.{RegisterResponse, Result, ok, http_error, failed}

-- the variable APPCENTER_CONFIG, and whether the system is Windows
pub record Environment : Type 0 where
  pub config_variable : String
  pub windows : Bool

abbrev pub windows_config_path : String
windows_config_path = "C:\\ProgramData\\AppCenter\\config.yaml"

abbrev pub path_or : String → Environment → String
path_or default env =
    if is_blank env.config_variable
    then (if env.windows then windows_config_path else default)
    else env.config_variable

-- resolveConfigPath
unfoldable pub resolve_config_path : Environment → String
resolve_config_path env = path_or "configs/config.yaml.template" env

-- resolveWritableConfigPath
unfoldable pub resolve_writable_config_path : Environment → String
resolve_writable_config_path env = path_or "config.yaml" env

abbrev pub with_uuid : String → Config → Config
with_uuid uuid c = record c { agent = record c.agent { uuid = uuid } }

abbrev pub with_secret : String → Config → Config
with_secret secret c = record c { agent = record c.agent { secret_key = secret } }

-- the configuration, the files, and whether there was no error
pub record Booted : Type 0 where
  pub config : Config
  pub files : Files
  pub registered : Bool

unfoldable pub take_reply :
    (Config → Bytes) → Bool → Environment → Config → Files → Result RegisterResponse → Booted
unfolding save resolve_writable_config_path
take_reply encode writable env c files (ok r) =
    if is_blank r.secret_key
    then record { config = c; files = files; registered = false }
    else record {
      config = with_secret r.secret_key c;
      files =
          (save encode writable (resolve_writable_config_path env) (with_secret r.secret_key c)
            files).1;
      registered = true;
    }
take_reply encode writable env c files (http_error e) = record {
  config = c;
  files = files;
  registered = false;
}
take_reply encode writable env c files failed = record {
  config = c;
  files = files;
  registered = false;
}

-- with an identifier; the server is asked for a secret under the identifier and the version
abbrev pub register_agent :
    (Config → Bytes)
    → Bool
    → Environment
    → (String → String → Result RegisterResponse)
    → Config
    → Files
    → Booted
register_agent encode writable env server c files =
    if is_blank c.agent.secret_key
    then take_reply encode writable env c files (server c.agent.uuid c.agent.version)
    else record { config = c; files = files; registered = true }

abbrev pub identified :
    (Config → Bytes)
    → Bool
    → Environment
    → (String → String → Result RegisterResponse)
    → Config
    → Files
    → Option String
    → Booted
identified encode writable env server c files none = record {
  config = c;
  files = files;
  registered = false;
}
identified encode writable env server c files (some uuid) =
    register_agent encode writable env server (with_uuid uuid c) files

-- bootstrapAgent; `uuid` is what GetOrCreateUUID returns
unfoldable pub bootstrap_agent :
    (Config → Bytes)
    → Bool
    → Environment
    → (String → String → Result RegisterResponse)
    → Option String
    → Config
    → Files
    → Booted
bootstrap_agent encode writable env server uuid c files =
    if is_blank c.agent.uuid
    then identified encode writable env server c files uuid
    else register_agent encode writable env server c files
