-- ===== src/Controller/Reconcile/Tests.antt =====
-- A reconcile and a cleanup at concrete data.
use stoker_operator.Prelude.{
  ◌<>◌, ◌≡◌, refl, true, false, none, some, [], ◌∷◌, contains, ◌==◌, string_eq, nat_eq, list_eq,
  arith, if◌then◌else◌,
}
use stoker_operator.Prelude.Dict.{lookup, erase}
use stoker_operator.Api.{is_true, is_false, GatewaySync}
use stoker_operator.Api.ConditionType
use stoker_operator.Api.Names
use stoker_operator.Api.Reason
use stoker_operator.Api.Samples.{gateway_sync}
use stoker_operator.Controller.Conditions.{set_condition}
use stoker_operator.Controller.Conditions.Laws.{IsUnique}
use stoker_operator.Controller.Metadata.{
  Stored, Objects, Api, remove, remove_all, owned_config_maps, cleanup_owned_resources,
  validate_git_secrets, git_secret_names,
}
use stoker_operator.Controller.Metadata.Laws.{lookup-cleanup_owned_resources}
use stoker_operator.Prelude.Text.{split_slash}
use stoker_operator.Git.Remote.{ls_remote}
use stoker_operator.Git.Auth.{resolve_auth}
use stoker_operator.Controller.Ref.{resolve_ref, is_recent, wanted_ref}
use stoker_operator.Controller.Validate.{
  validate_profiles, validate_var_keys, valid_var_key, validate_each, validate_mappings,
  validate_path, contains_traversal,
}
use stoker_operator.Controller.Steps.{Env, State, with_finalizers, with_resolution, wait_for_ref}
use stoker_operator.Controller.Reconcile.{
  reconcile, reconcile_object, on_request, sync, with_git_secrets, with_resolved,
}
use stoker_operator.Controller.Reconcile.Laws.{IsGood}
use stoker_operator.Controller.Reconcile.Kept.{reconcile-IsGood}

abbrev api : Api
api = record {
  get_succeeds = λ name. true;
  owner_is_settable = true;
  create_succeeds = λ name. true;
  update_succeeds = λ name. true;
  delete_succeeds = λ name. true;
}

abbrev stored : Stored
stored = record { labels = []; annotations = []; owner = "cr"; values = [] }

abbrev objects : Objects
objects = record {
  config_maps = ("stoker-status-cr", stored) ∷ ("other", stored) ∷ [];
  secrets = ("api", stored) ∷ [];
}

abbrev plain : GatewaySync
plain = with_finalizers (Names.finalizer ∷ []) (gateway_sync [] none "main")

lookup-cleanup_owned_resources_example :
    (lookup "other" (cleanup_owned_resources api plain objects).1.config_maps ≡ (
      if contains (owned_config_maps plain) "other"
      then none
      else lookup "other" objects.config_maps))
    × (lookup "other" (cleanup_owned_resources api plain objects).1.secrets ≡ (
        if "other" == "stoker-github-token-" <> "cr" then none else lookup "other" objects.secrets))
unfolding string_eq cleanup_owned_resources remove_all remove lookup erase
lookup-cleanup_owned_resources_example =
    lookup-cleanup_owned_resources api plain objects "other" refl

abbrev env : Env
env = record {
  seconds = 9;
  world = record {
    now = 9000;
    calls = record {
      secret = λ name. none;
      exchange = λ pem a. none;
      is_private_key = λ pem. true;
      is_known_hosts = λ hosts. true;
    };
    is_hash = λ ref. false;
    advertised = λ repo auth. none;
    parse_duration = λ s. none;
  };
  server = record {
    pods = some [];
    get_succeeds = true;
    owner_is_settable = true;
    create_succeeds = true;
    delete_succeeds = true;
    update_succeeds = true;
  };
  api = api;
  marshal = λ profiles. "{}";
  decoders = record { unmarshal = λ s. none; parse_time = λ s. none };
  sort = λ names. names;
  auto_bind = true;
  object_get_fails = false;
  update_succeeds = true;
  patch_status_succeeds = true;
  refetch_succeeds = true;
  patch_succeeds = true;
  message = λ p delay. "";
}

-- The object cannot resolve its ref: the remote does not answer.
abbrev state : State
state = record { object = some plain; objects = objects; binding = none; backoff = []; tokens = [] }

types_differ : (ConditionType.ref_resolved == ConditionType.profiles_valid) ≡ false
unfolding string_eq
types_differ = refl

plain-IsUnique : IsUnique plain.status.conditions
plain-IsUnique = λ t. ground (arith, types_differ)

abbrev failed : GatewaySync
failed = with_resolution "Error" (
    set_condition 9 ConditionType.ref_resolved is_false Reason.ref_resolution_failed "" (
      set_condition 9 ConditionType.profiles_valid is_true Reason.profiles_valid
        "All profiles valid" plain))

reconcile-IsGood_example : IsGood plain.spec failed
unfolding string_eq reconcile reconcile_object on_request lookup sync with_git_secrets
    validate_git_secrets git_secret_names with_resolved resolve_ref is_recent validate_profiles
    validate_var_keys valid_var_key validate_each validate_mappings validate_path contains_traversal
    split_slash set_condition resolve_auth ls_remote wait_for_ref wanted_ref
reconcile-IsGood_example =
    reconcile-IsGood env "site/cr" state plain failed refl plain-IsUnique refl
