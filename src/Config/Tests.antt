-- ===== src/Config/Tests.antt =====
-- Runs of the configuration code, and each theorem at an input that meets its hypotheses.
use appcenter_agent.Common.{
  String, ◌≡◌, refl, true, false, Option, none, some, [], ◌∷◌, nat_eq, int_eq, string_eq,
}
use appcenter_agent.Common.Dict.{lookup}
use appcenter_agent.Files.{Bytes, Files}
use appcenter_agent.Config.{
  Config, default_config, validate, apply_defaults, Overrides, apply_runtime_overrides, load,
  ensure_exists,
}
use appcenter_agent.Config.Loading.{Loaded, load_lem, first_start}

-- a stand-in for YAML that knows one text
abbrev toy_encode : Config → Bytes
toy_encode c = 1 ∷ []

abbrev toy_decode : Bytes → Option Config
toy_decode [] = none
toy_decode (b ∷ bs) = some default_config

abbrev from_installer : Overrides
from_installer = record {
  env_server_url = "http://env";
  env_secret_key = "";
  registry_server_url = "http://reg";
  registry_secret_key = "k";
}

first_start_example :
    ((p : String) (b : Bytes)
      → lookup p (("other", 5 ∷ []) ∷ []) ≡ some b
      → lookup p (ensure_exists toy_encode true "config.yaml" (("other", 5 ∷ []) ∷ [])).1 ≡ some b)
    × ((c : Config) × (load toy_decode from_installer "config.yaml"
            (ensure_exists toy_encode true "config.yaml" (("other", 5 ∷ []) ∷ [])).1
          ≡ some c))
unfolding lookup
first_start_example =
    first_start toy_encode toy_decode from_installer "config.yaml" (("other", 5 ∷ []) ∷ []) refl
      refl

abbrev one_file : Files
one_file = ("config.yaml", 1 ∷ []) ∷ []

abbrev overridden : Config
overridden = record default_config {
  server = record { url = "http://reg"; verify_ssl = false };
  agent = record { version = "0.0.0"; uuid = ""; secret_key = "k" };
}

load_lem_example :
    (b : Bytes) × (c' : Config) × (lookup "config.yaml" one_file ≡ some b)
    × (toy_decode b ≡ some c')
    × Loaded from_installer c' overridden
unfolding load lookup validate apply_defaults apply_runtime_overrides
load_lem_example = load_lem toy_decode from_installer "config.yaml" one_file overridden refl
