-- ===== src/Agent/Config.antt =====
-- internal/agent/config.go. `getenv` is `os.Getenv`: a variable that is not set is empty.
pub mod Laws
use stoker_operator.Prelude.{
  ℕ, String, ◌<>◌, Bool, true, false, Option, none, some, ◌==◌, string_eq, leb, if◌then◌else◌,
}
use stoker_operator.Prelude.Int.{ℤ, pos, negsuc, atoi, parse_bool}
use stoker_operator.Prelude.Outcome.{Outcome, done, failed}
use stoker_operator.Prelude.Text.{trim_space}

-- The sync period is in seconds, and above 0.
pub record Config : Type 0 where
  pub pod_name : String
  pub pod_namespace : String
  pub gateway_name : String
  pub cr_name : String
  pub cr_namespace : String
  pub repo_path : String
  pub data_path : String
  pub gateway_port : String
  pub gateway_tls : Bool
  pub api_key_file : String
  pub sync_period : ℕ
  pub profile_name : String

abbrev pub or_default : String → String → String
or_default s d = if s == "" then d else s

abbrev period_of : Option ℤ → ℕ
period_of none = 30
period_of (some (negsuc n)) = 30
period_of (some (pos n)) = if leb n 0 then 30 else n

unfoldable pub parse_period : String → ℕ
parse_period sp = if sp == "" then 30 else period_of (atoi sp)

unfoldable pub read_config : (String → String) → Config
unfolding parse_period
read_config getenv = record {
  pod_name = getenv "POD_NAME";
  pod_namespace = getenv "POD_NAMESPACE";
  gateway_name = or_default (getenv "GATEWAY_NAME") (getenv "POD_NAME");
  cr_name = getenv "CR_NAME";
  cr_namespace = or_default (getenv "CR_NAMESPACE") (getenv "POD_NAMESPACE");
  repo_path = or_default (getenv "REPO_PATH") "/repo";
  data_path = or_default (getenv "DATA_PATH") "/ignition-data";
  gateway_port = or_default (getenv "GATEWAY_PORT") "8088";
  gateway_tls = parse_bool (getenv "GATEWAY_TLS");
  api_key_file = getenv "API_KEY_FILE";
  sync_period = parse_period (getenv "SYNC_PERIOD");
  profile_name = getenv "PROFILE";
}

unfoldable pub load_config : (String → String) → Outcome Config
unfolding read_config
load_config getenv =
    if getenv "CR_NAME" == ""
    then failed "CR_NAME env var is required"
    else if getenv "POD_NAMESPACE" == ""
    then failed "POD_NAMESPACE env var is required"
    else done (read_config getenv)

abbrev trimmed : Option String → String
trimmed none = ""
trimmed (some content) = trim_space content

-- `read` is `os.ReadFile`, without its error.
unfoldable pub api_key : (String → Option String) → Config → String
api_key read cfg = if cfg.api_key_file == "" then "" else trimmed (read cfg.api_key_file)

unfoldable pub gateway_scheme : Config → String
gateway_scheme cfg = if cfg.gateway_tls then "https" else "http"

unfoldable pub gateway_host : Config → String
gateway_host cfg = "localhost:" <> cfg.gateway_port
