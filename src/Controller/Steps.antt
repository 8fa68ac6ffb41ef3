-- ===== src/Controller/Steps.antt =====
-- The steps of Reconcile in gatewaysync_controller.go, on the object as the API server
-- has it and the reconciler's maps. A reconcile takes one instant, in seconds for the backoff and for
-- conditions. Events, logs and metrics are left out.

use stoker_operator.Prelude.{
  ℕ, zero, suc, ◌*◌, String, Bool, not, ◌&&◌, Option, none, some, List, [], ◌∷◌, length, contains,
  ◌==◌, string_eq, nat_eq, if◌then◌else◌,
}
use stoker_operator.Prelude.Dict.{Dict}
use stoker_operator.Api.{is_true, is_false, SshKeyAuth, GitAuthSpec, GatewaySync}
use stoker_operator.Api.ConditionType
use stoker_operator.Api.Names
use stoker_operator.Api.Reason
use stoker_operator.Git.Remote.{GitResult}
use stoker_operator.Webhook.Inject.Auth.{git_hub_app_of, is_some}
use stoker_operator.Controller.Backoff.{Backoff, backoff_delay, record_failure, reset_backoff}
use stoker_operator.Controller.Conditions.{set_condition}
use stoker_operator.Controller.Validate.{ProfileError}
use stoker_operator.Controller.Profiles.{ResolvedProfile}
use stoker_operator.Controller.Ref.{
  TokenCache, World, second, RefError, git_hub_app_failed, auth_failed, ls_remote_failed,
}
use stoker_operator.Controller.Discovery.{Decoders}
use stoker_operator.Controller.Rbac.{RoleBinding, Server}
use stoker_operator.Controller.Metadata.{Objects, Api, cleanup_owned_resources}

-- What the messages of conditions are about.
pub data Problem : Type 0 where
  profiles_invalid : ProfileError → Problem
  secret_missing : String → Problem
  ref_failed : RefError → Problem

-- What a reconcile meets: the clock, the server's answers, and the texts of messages.
pub record Env : Type 0 where
  pub seconds : ℕ
  pub world : World
  pub server : Server
  pub api : Api
  pub marshal : Dict String ResolvedProfile → String
  pub decoders : Decoders
  pub sort : List String → List String
  pub auto_bind : Bool
  pub object_get_fails : Bool
  pub update_succeeds : Bool
  pub patch_status_succeeds : Bool
  pub refetch_succeeds : Bool
  pub patch_succeeds : Bool
  pub message : Problem → ℕ → String

-- The API server's objects that the reconcile of one object touches, and the reconciler's maps.
pub record State : Type 0 where
  pub object : Option GatewaySync
  pub objects : Objects
  pub binding : Option RoleBinding
  pub backoff : Backoff
  pub tokens : TokenCache

pub data Result : Type 0 where
  done : Result
  requeue_after : ℕ → Result
  errored : Result

abbrev pub with_object : GatewaySync → State → State
with_object gs st = record st { object = some gs }

-- patchStatus, of an object that is otherwise as it was fetched.
abbrev pub patch_status : Env → GatewaySync → State → State
patch_status env gs st = if env.patch_status_succeeds then with_object gs st else st

-- `return ctrl.Result{}, err`
abbrev pub ok_or_error : Bool → Result
ok_or_error ok = if ok then done else errored

without : String → List String → List String
without f [] = []
without f (x ∷ xs) = let rest = without f xs in if x == f then rest else x ∷ rest

abbrev pub with_finalizers : List String → GatewaySync → GatewaySync
with_finalizers fs gs = let m = gs.meta in record gs { meta = record m { finalizers = fs } }

abbrev pub append_finalizer : List String → List String
append_finalizer [] = Names.finalizer ∷ []
append_finalizer (f ∷ fs) = f ∷ append_finalizer fs

-- An Update of the object: one that is being deleted goes with its last finalizer.
abbrev pub is_gone : GatewaySync → Bool
is_gone gs = is_some gs.meta.deletion_timestamp && length gs.meta.finalizers == 0

abbrev pub update_object : Env → GatewaySync → State → Result × State
update_object env gs st =
    if env.update_succeeds
    then (done, record st { object = if is_gone gs then none else some gs })
    else (errored, st)

-- Step 0 for an object that is being deleted.
unfoldable pub finalize : Env → String → GatewaySync → State → Result × State
unfolding without
finalize env key gs st =
    let (ok, left) = cleanup_owned_resources env.api gs st.objects in
    let cleaned = record st { objects = left } in
    if not (contains gs.meta.finalizers Names.finalizer)
    then (done, st)
    else if not ok
    then (errored, cleaned)
    else update_object env (with_finalizers (without Names.finalizer gs.meta.finalizers) gs)
        (record cleaned { backoff = reset_backoff key st.backoff })

-- A failure is counted, its message set in the condition, and the next try delayed.
abbrev pub delay_of_next : Env → String → State → ℕ
delay_of_next env key st = backoff_delay (record_failure env.seconds key st.backoff) key

abbrev pub count_failure : Env → String → State → State
count_failure env key st = record st { backoff = record_failure env.seconds key st.backoff }

unfoldable pub wait_for_secret : Env → String → String → GatewaySync → State → Result × State
wait_for_secret env key name gs st =
    let delay = delay_of_next env key st in
    (
      requeue_after (delay * second),
      patch_status env
          (set_condition env.seconds ConditionType.ready is_false Reason.reconciling
            (env.message (secret_missing name) delay) gs)
          (count_failure env key st),
    )

abbrev pub reason_of : GatewaySync → RefError → String
reason_of gs git_hub_app_failed =
    if is_some (git_hub_app_of gs.spec.git.auth)
    then Reason.git_hub_app_exchange_failed
    else Reason.ref_resolution_failed
reason_of gs auth_failed = Reason.ref_resolution_failed
reason_of gs ls_remote_failed = Reason.ref_resolution_failed

abbrev pub with_resolution : String → GatewaySync → GatewaySync
with_resolution s gs =
    let st = gs.status in record gs { status = record st { ref_resolution_status = s } }

unfoldable pub wait_for_ref : Env → String → RefError → GatewaySync → State → Result × State
wait_for_ref env key e gs st =
    let delay = delay_of_next env key st in
    (
      requeue_after (delay * second),
      patch_status env
          (with_resolution "Error" (
            set_condition env.seconds ConditionType.ref_resolved is_false (reason_of gs e)
              (env.message (ref_failed e) delay) gs))
          (count_failure env key st),
    )

-- Step 1
abbrev pub judge_profiles : Env → Option ProfileError → GatewaySync → GatewaySync
judge_profiles env none gs =
    set_condition env.seconds ConditionType.profiles_valid is_true Reason.profiles_valid
      "All profiles valid" gs
judge_profiles env (some e) gs =
    set_condition env.seconds ConditionType.profiles_valid is_false Reason.profiles_invalid
      (env.message (profiles_invalid e) 0) gs

-- Step 2.5
abbrev pub judge_host_key : Env → Option SshKeyAuth → GatewaySync → GatewaySync
judge_host_key env none gs = gs
judge_host_key env (some k) gs =
    if is_some k.known_hosts
    then set_condition env.seconds ConditionType.ssh_host_key_verification is_true
        Reason.host_key_verification_enabled "SSH host key verification enabled" gs
    else set_condition env.seconds ConditionType.ssh_host_key_verification is_false
        Reason.host_key_verification_disabled
        "SSH host key verification disabled — set spec.git.auth.sshKey.knownHosts to enable MITM protection"
        gs

abbrev pub ssh_key_of : Option GitAuthSpec → Option SshKeyAuth
ssh_key_of none = none
ssh_key_of (some auth) = auth.ssh_key

-- `sha[:n]` of a text that is longer, and else the text.
take_text : ℕ → String → String
take_text zero s = ""
take_text (suc n) String.[] = ""
take_text (suc n) (String.◌∷◌ c s) = String.◌∷◌ c (take_text n s)

unfoldable pub short_commit : String → String
unfolding take_text
short_commit sha = take_text 7 sha

-- Step 3, where the ref was resolved.
unfoldable pub note_commit : Env → GitResult → GatewaySync → GatewaySync
unfolding short_commit
note_commit env result gs =
    let st = gs.status in
    let new = record st {
      last_sync_commit = result.commit;
      last_sync_commit_short = short_commit result.commit;
      last_sync_ref = result.ref;
      last_sync_time = some env.world.now;
    } in
    if st.last_sync_commit == result.commit then gs else record gs { status = new }
