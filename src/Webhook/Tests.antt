-- ===== src/Webhook/Tests.antt =====
-- Runs of the webhooks, and their theorems at concrete data.
use stoker_operator.Prelude.{
  String, ◌≡◌, refl, ◌↔◌, ◌⊎◌, true, false, none, some, [], ◌∷◌, ◌==◌, string_eq, if◌then◌else◌,
}
use stoker_operator.Prelude.Dict.{lookup, insert}
use stoker_operator.Api.{GatewaySync}
use stoker_operator.Api.Annotation
use stoker_operator.Api.Pod.{Pod, empty_dir}
use stoker_operator.Api.Samples.{app_auth, gateway_sync, pod}
use stoker_operator.Webhook.Json.{Json, field, end}
use stoker_operator.Webhook.Receiver.{
  Platform, Receiver, Request, authorize, Cluster, annotate, handle_webhook, parse_payload,
}
use stoker_operator.Webhook.Receiver.Laws.{
  HasHmac, HasBearer, authorize_iff, handle_webhook_unauthorized, Wrote, handle_webhook-Wrote,
  handle_webhook_again,
}
use stoker_operator.Webhook.Inject.{
  Client, found, not_found, allowed, already_injected, handle, write_back,
}
use stoker_operator.Webhook.Inject.Sidecar.{inject_sidecar}
use stoker_operator.Webhook.Inject.Laws.{
  Injected, handle-Injected, handle_again, FirstIsBacked, inject_sidecar-IsBacked,
}

-- A MAC that is the secret, a digest that is the text, and one body that is an object.
abbrev platform : Platform
platform = record {
  hmac_hex = λ secret body. secret;
  sha256 = λ s. s;
  unmarshal = λ body. if body == "{ref}" then some (field "ref" (Json.text "v2") end) else none;
}

abbrev receiver : Receiver
receiver = record { hmac_secret = "s"; bearer_token = "" }

abbrev request : String → Request
request signature = record {
  namespace = "site";
  cr_name = "cr";
  signature_header = signature;
  authorization_header = "";
  body = some "{ref}";
}

abbrev before : GatewaySync
before = gateway_sync ((Annotation.requested_ref, "v1") ∷ []) none "v1"

abbrev after : GatewaySync
after = annotate "v2" "noon" "generic" before

abbrev cluster : GatewaySync → Cluster
cluster gs = record {
  found = λ ns name. if name == "cr" then some gs else none;
  update_succeeds = λ new. true;
}

authorize_iff_example : (authorize platform receiver (request "sha256=s") "{ref}" ≡ true) ↔ (
    ((receiver.hmac_secret ≡ "") × (receiver.bearer_token ≡ ""))
    ⊎ (HasHmac platform receiver (request "sha256=s") "{ref}"
        ⊎ HasBearer platform receiver (request "sha256=s")))
authorize_iff_example = authorize_iff platform receiver (request "sha256=s") "{ref}"

handle_webhook_unauthorized_example :
    (handle_webhook platform receiver (cluster before) "noon" (request "sha256=t")
      ≡ handle_webhook platform receiver (cluster after) "later" (request "sha256=t"))
    × ((handle_webhook platform receiver (cluster before) "noon" (request "sha256=t")).status ≡ 401)
    × ((handle_webhook platform receiver (cluster before) "noon" (request "sha256=t")).updated
        ≡ none)
unfolding string_eq authorize
handle_webhook_unauthorized_example =
    handle_webhook_unauthorized platform receiver (request "sha256=t") "{ref}" "noon" "later"
      (cluster before) (cluster after) refl refl

handle_webhook-Wrote_example :
    Wrote platform receiver (cluster before) "noon" (request "sha256=s") after
unfolding string_eq handle_webhook authorize parse_payload lookup
handle_webhook-Wrote_example =
    handle_webhook-Wrote platform receiver (cluster before) "noon" (request "sha256=s") after refl

handle_webhook_again_example :
    ((handle_webhook platform receiver (cluster after) "later" (request "sha256=s")).status ≡ 202)
    × ((handle_webhook platform receiver (cluster after) "later" (request "sha256=s")).updated
        ≡ none)
    × ((handle_webhook platform receiver (cluster after) "later" (request "sha256=s")).event
        ≡ false)
unfolding string_eq handle_webhook authorize parse_payload lookup
handle_webhook_again_example =
    handle_webhook_again platform receiver (cluster before) (cluster after) "noon" "later"
      (request "sha256=s") after refl refl

abbrev client : Client
client = record {
  get = λ name. if name == "cr" then found (gateway_sync [] app_auth "main") else not_found;
  list = some (gateway_sync [] app_auth "main" ∷ []);
}

abbrev plain : Pod
plain = record (pod ((Annotation.inject, "true") ∷ [])) {
  volumes = record { name = "data"; source = empty_dir } ∷ [];
}

abbrev injected : Pod
injected = inject_sidecar "img" (write_back "cr" plain) (gateway_sync [] app_auth "main")

handle-Injected_example : Injected "img" client plain injected
unfolding string_eq handle lookup insert
handle-Injected_example = handle-Injected "img" client plain injected refl

handle_again_example :
    handle "img" (record { get = λ name. not_found; list = none }) (some injected)
    ≡ allowed already_injected
unfolding string_eq handle lookup insert
handle_again_example =
    handle_again "img" client (record { get = λ name. not_found; list = none }) plain injected refl

inject_sidecar-IsBacked_example :
    FirstIsBacked
      (inject_sidecar "img" plain (gateway_sync [] app_auth "main")).volumes
      (inject_sidecar "img" plain (gateway_sync [] app_auth "main")).init_containers
inject_sidecar-IsBacked_example =
    inject_sidecar-IsBacked "img" plain (gateway_sync [] app_auth "main")
