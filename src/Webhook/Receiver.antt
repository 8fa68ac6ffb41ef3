-- ===== src/Webhook/Receiver.antt =====
-- internal/webhook/hmac.go and receiver.go
pub mod Laws
use stoker_operator.Prelude.{
  ℕ, String, ◌<>◌, starts_with, Bool, true, false, not, ◌&&◌, ◌||◌, Option, none, some, List, [],
  ◌∷◌, ◌++◌, ◌==◌, string_eq, if◌then◌else◌,
}
use stoker_operator.Prelude.Dict.{Dict, lookup, insert}
use stoker_operator.Api.{ObjectMeta, GatewaySync}
use stoker_operator.Api.Annotation
use stoker_operator.Webhook.Json.{
  Json, object, Fields, Items, as_object, as_text, as_array, get, first,
}

-- The libraries that the receiver calls: HMAC-SHA256 in hex under a secret, SHA-256, the JSON
-- decoder (`none` is an error, or a value that is no object), and the clock's RFC 3339 text.
pub record Platform : Type 0 where
  pub hmac_hex : String → String → String
  pub sha256 : String → String
  pub unmarshal : String → Option Fields

pub data HmacError : Type 0 where
  secret_empty validation_failed : HmacError

-- ValidateHMAC; `none` is its nil error.
unfoldable pub validate_hmac : Platform → String → String → String → Option HmacError
validate_hmac pf payload signature secret =
    if secret == ""
    then some secret_empty
    else if not (starts_with signature "sha256=")
    then some validation_failed
    else if not (("sha256=" <> pf.hmac_hex secret payload) == signature)
    then some validation_failed
    else none

pub record Receiver : Type 0 where
  pub hmac_secret : String
  pub bearer_token : String

-- The parts of an HTTP request that the handler reads. `body` is what was read up to 1 MiB, or
-- `none` where the read failed.
pub record Request : Type 0 where
  pub namespace : String
  pub cr_name : String
  pub signature_header : String
  pub authorization_header : String
  pub body : Option String

abbrev is_nil : Option HmacError → Bool
is_nil none = true
is_nil (some _) = false

unfoldable pub authorize : Platform → Receiver → Request → String → Bool
unfolding validate_hmac
authorize pf rv r body =
    if rv.hmac_secret == "" && rv.bearer_token == ""
    then true
    else if not (rv.hmac_secret == "")
        && is_nil (validate_hmac pf body r.signature_header rv.hmac_secret)
    then true
    else if not (rv.bearer_token == "")
        && pf.sha256 r.authorization_header == pf.sha256 ("Bearer " <> rv.bearer_token)
    then true
    else false

infixl 5 ◌>>=◌
abbrev pub ◌>>=◌ {ℓ κ} : {A : Type ℓ} {B : Type κ} → Option A → (A → Option B) → Option B
none >>= k = none
some a >>= k = k a

abbrev pub nonempty : String → Option String
nonempty s = if s == "" then none else some s

-- The four formats, each with the text that it carries if that is not empty.
unfoldable pub git_hub_release : Fields → Option String
unfolding get
git_hub_release raw = do
  release ← as_object (get "release" raw)
  tag ← as_text (get "tag_name" release)
  nonempty tag

unfoldable pub argo_cd_app : Fields → Option String
unfolding get
argo_cd_app raw = do
  app ← as_object (get "app" raw)
  meta ← as_object (get "metadata" app)
  anns ← as_object (get "annotations" meta)
  ref ← as_text (get "git.ref" anns)
  nonempty ref

unfoldable pub kargo_freight : Fields → Option String
unfolding get
kargo_freight raw = do
  freight ← as_object (get "freight" raw)
  commits ← as_array (get "commits" freight)
  commit ← as_object (first commits)
  tag ← as_text (get "tag" commit)
  nonempty tag

unfoldable pub generic_ref : Fields → Option String
unfolding get
generic_ref raw = do ref ← as_text (get "ref" raw); nonempty ref

abbrev or_format : Option String → String → String × String → String × String
or_format (some ref) source later = (ref, source)
or_format none source later = later

abbrev pub source_generic : String
source_generic = "generic"

unfoldable pub parse_raw : Option Fields → String × String
unfolding git_hub_release argo_cd_app kargo_freight generic_ref
parse_raw none = ("", "")
parse_raw (some raw) = or_format (git_hub_release raw) "github" (
    or_format (argo_cd_app raw) "argocd"
      (or_format (kargo_freight raw) "kargo" (or_format (generic_ref raw) source_generic ("", ""))))

-- parsePayload: the ref and its source, both empty where there is none.
unfoldable pub parse_payload : Platform → String → String × String
unfolding parse_raw
parse_payload pf body = parse_raw (pf.unmarshal body)

-- The API server as the handler meets it: the object that `Get` finds, and whether an `Update` of
-- it succeeds.
pub record Cluster : Type 0 where
  pub found : String → String → Option GatewaySync
  pub update_succeeds : GatewaySync → Bool

-- What a request leads to: the status and the label of the request counter, the object that was
-- written, and whether the event was recorded.
pub record Reply : Type 0 where
  pub status : ℕ
  pub counted_source : String
  pub updated : Option GatewaySync
  pub event : Bool

abbrev refuse : ℕ → String → Reply
refuse status source = record {
  status = status;
  counted_source = source;
  updated = none;
  event = false;
}

-- The three annotations that a request writes.
unfoldable pub annotate : String → String → String → GatewaySync → GatewaySync
unfolding insert
annotate ref now source gs =
    let anns = insert Annotation.requested_ref ref gs.meta.annotations in
    let anns' = insert Annotation.requested_at now anns in
    let m = gs.meta in
    record gs { meta = record m { annotations = insert Annotation.requested_by source anns' } }

store_annotated : Cluster → GatewaySync → String → Reply
store_annotated c gs source =
    if c.update_succeeds gs
    then record { status = 202; counted_source = source; updated = some gs; event = true }
    else refuse 500 source

accept : Cluster → String → String → String → Option GatewaySync → Reply
unfolding store_annotated
accept c now ref source none = refuse 404 source
accept c now ref source (some gs) = elim (lookup Annotation.requested_ref gs.meta.annotations) [
  | none ↦ store_annotated c (annotate ref now source gs) source
  | some old ↦
      if old == ref
      then refuse 202 source
      else store_annotated c (annotate ref now source gs) source
]

with_body : Platform → Receiver → Cluster → String → Request → Option String → Reply
unfolding accept
with_body pf rv c now r none = refuse 400 "unknown"
with_body pf rv c now r (some body) =
    if not (authorize pf rv r body)
    then refuse 401 "unknown"
    else let (ref, source) = parse_payload pf body in
      if ref == ""
      then refuse 400 "unknown"
      else accept c now ref source (c.found r.namespace r.cr_name)

-- handleWebhook at the time `now`.
unfoldable pub handle_webhook : Platform → Receiver → Cluster → String → Request → Reply
unfolding with_body
handle_webhook pf rv c now r = with_body pf rv c now r r.body
