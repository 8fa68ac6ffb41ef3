-- ===== src/Agent/ConfigMaps.antt =====
-- internal/agent/configmap.go. The API server is its answers: a Get is answered by what was read or
-- by the kind of error, a write by whether it was stored.
pub mod Laws
pub mod Meet
use stoker_operator.Prelude.{
  ℕ, zero, suc, ◌+◌, String, ◌<>◌, Option, none, some, List, [], ◌∷◌, ◌==◌, string_eq,
  if◌then◌else◌,
}
use stoker_operator.Prelude.Dict.{Dict, lookup, insert}
use stoker_operator.Prelude.Outcome.{Outcome, done, failed}
use stoker_operator.Controller.Profiles.{ResolvedProfile}
use stoker_operator.Controller.Discovery.{GatewayStatus}
use stoker_operator.Controller.Metadata.{Stored}

unfoldable pub metadata_config_map_name : String → String
metadata_config_map_name cr_name = "stoker-metadata-" <> cr_name

unfoldable pub status_config_map_name : String → String
status_config_map_name cr_name = "stoker-status-" <> cr_name

pub data Fetched : Type 0 where
  found : Stored → Fetched
  absent : Fetched
  forbidden get_failed : String → Fetched

pub data Written : Type 0 where
  stored already_exists conflict : Written
  write_failed : String → Written

pub record Metadata : Type 0 where
  pub commit : String
  pub ref : String
  pub git_url : String
  pub paused : String
  pub profiles : String
  pub auth_type : String

-- `d[k]` of a map of texts
abbrev pub text_at : String → Dict String String → String
text_at k d = elim (lookup k d) [ none ↦ "" | some v ↦ v ]

unfoldable pub metadata_of : Dict String String → Metadata
metadata_of d = record {
  commit = text_at "commit" d;
  ref = text_at "ref" d;
  git_url = text_at "gitURL" d;
  paused = text_at "paused" d;
  profiles = text_at "profiles" d;
  auth_type = text_at "authType" d;
}

abbrev read_error : String → String → Outcome Metadata
read_error cr_name e =
    failed ("reading metadata ConfigMap " <> (metadata_config_map_name cr_name <> (": " <> e)))

-- On the answer to Get. The text of a missing object's error is left out.
unfoldable pub read_metadata_config_map : String → Fetched → Outcome Metadata
unfolding metadata_of metadata_config_map_name
read_metadata_config_map cr_name (found cm) = done (metadata_of cm.values)
read_metadata_config_map cr_name absent = read_error cr_name "not found"
read_metadata_config_map cr_name (forbidden e) = read_error cr_name e
read_metadata_config_map cr_name (get_failed e) = read_error cr_name e

abbrev Profiles : Type 0
Profiles = Dict String ResolvedProfile

abbrev profiles_or_error : Outcome Profiles → Outcome Profiles
profiles_or_error (done ps) = done ps
profiles_or_error (failed e) = failed ("parsing resolved profiles: " <> e)

-- `unmarshal` is the JSON decoder.
unfoldable pub parse_resolved_profiles : (String → Outcome Profiles) → String → Outcome Profiles
parse_resolved_profiles unmarshal raw =
    if raw == "" then done [] else profiles_or_error (unmarshal raw)

-- The answers to the calls on the status ConfigMap, in the attempt of that number.
pub record StatusServer : Type 0 where
  pub get : ℕ → Fetched
  pub create : ℕ → Stored → Written
  pub update : ℕ → Stored → Written

-- What one write ends in: the ConfigMap that the server stored, if it did.
abbrev pub Outgoing : Type 0
Outgoing = Option Stored × Outcome (Unit {0})

-- The answers to Create and to Update; a lost race goes on as `again`.
unfoldable pub after_create : Stored → Outgoing → Written → Outgoing
after_create cm again stored = (some cm, done tt)
after_create cm again already_exists = again
after_create cm again conflict = (none, failed ("creating status ConfigMap: " <> "conflict"))
after_create cm again (write_failed e) = (none, failed ("creating status ConfigMap: " <> e))

unfoldable pub after_update : Stored → Outgoing → Written → Outgoing
after_update cm again stored = (some cm, done tt)
after_update cm again conflict = again
after_update cm again already_exists =
    (none, failed ("updating status ConfigMap: " <> "already exists"))
after_update cm again (write_failed e) = (none, failed ("updating status ConfigMap: " <> e))

-- The ConfigMap that is created has no owner.
unfoldable pub new_status_map : String → String → String → Stored
new_status_map cr_name gateway_name json = record {
  labels = ("app.kubernetes.io/managed-by", "stoker-agent") ∷ ("stoker.io/cr-name", cr_name) ∷ [];
  annotations = [];
  owner = "";
  values = (gateway_name, json) ∷ [];
}

unfoldable pub with_entry : String → String → Stored → Stored
with_entry gateway_name json cm = record cm { values = insert gateway_name json cm.values }

-- The attempts that are left, from the attempt of that number on.
unfoldable pub write_attempts : StatusServer → String → String → String → ℕ → ℕ → Outgoing
unfolding after_create after_update new_status_map with_entry
write_attempts s cr_name gateway_name json i zero =
    (none, failed "failed to write status after 3 retries")
write_attempts s cr_name gateway_name json i (suc left) =
    let again = write_attempts s cr_name gateway_name json (i + 1) left in
    elim (s.get i) [
      | forbidden e ↦ (none, failed ("writing status ConfigMap (permission denied): " <> e))
      | absent ↦
          let cm = new_status_map cr_name gateway_name json in after_create cm again (s.create i cm)
      | get_failed e ↦ (none, failed ("getting status ConfigMap: " <> e))
      | found old ↦
          let cm = with_entry gateway_name json old in after_update cm again (s.update i cm)
    ]

abbrev marshaled : StatusServer → String → String → ℕ → Outcome String → Outgoing
marshaled s cr_name gateway_name i (failed e) = (none, failed ("marshaling status: " <> e))
marshaled s cr_name gateway_name i (done json) = write_attempts s cr_name gateway_name json i 3

-- The attempts are numbered from `i` on. `marshal` is the JSON encoder.
unfoldable pub write_status_config_map :
    (GatewayStatus → Outcome String) → StatusServer → String → String → ℕ → GatewayStatus → Outgoing
unfolding write_attempts
write_status_config_map marshal s cr_name gateway_name i status =
    marshaled s cr_name gateway_name i (marshal status)
