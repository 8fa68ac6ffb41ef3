-- ===== src/Webhook/Receiver/Laws.antt =====
-- Who may set a ref, and what an accepted request writes.
use text.Mathlib.TextPositions.{starts_with-append}
use stoker_operator.Prelude.{
  String, ◌<>◌, starts_with, ◌≡◌, ◌≢◌, ap, ◌∙◌, ◌↔◌, ◌⊎◌, inl, inr, true, false, none, some, ◌==◌,
  string_eq, arith, if◌then◌else◌, Option-cases,
}
use stoker_operator.Prelude.Dict.{lookup, lookup-insert}
use stoker_operator.Api.{GatewaySync}
use stoker_operator.Api.Annotation
use stoker_operator.Webhook.Receiver.{
  Platform, Receiver, Request, authorize, parse_payload, Cluster, annotate, handle_webhook,
}

-- The header carries the MAC of the body under the configured secret.
abbrev pub HasHmac : Platform → Receiver → Request → String → Type 0
HasHmac pf rv r body =
    (rv.hmac_secret ≢ "") × (r.signature_header ≡ "sha256=" <> pf.hmac_hex rv.hmac_secret body)

-- The header has the digest of the configured bearer token.
abbrev pub HasBearer : Platform → Receiver → Request → Type 0
HasBearer pf rv r =
    (rv.bearer_token ≢ "")
    × (pf.sha256 r.authorization_header ≡ pf.sha256 ("Bearer " <> rv.bearer_token))

-- A request passes exactly if no method is configured, or it carries the MAC of its body, or it
-- carries the bearer token's digest.
pub authorize_iff :
    (pf : Platform) (rv : Receiver) (r : Request) (body : String)
    → (authorize pf rv r body ≡ true) ↔ (
        ((rv.hmac_secret ≡ "") × (rv.bearer_token ≡ ""))
        ⊎ (HasHmac pf rv r body ⊎ HasBearer pf rv r))
unfolding authorize
authorize_iff pf rv r body =
    let signed = starts_with-append "sha256=" (pf.hmac_hex rv.hmac_secret body) in
    ground (
      arith,
      signed,
      λ (e : r.signature_header ≡ "sha256=" <> pf.hmac_hex rv.hmac_secret body).
          ap (λ s. starts_with s "sha256=") e,
    )

-- A request whose body was read and that fails authorization is answered 401 with nothing written,
-- and alike whatever objects exist: the answer tells nothing of the cluster.
pub handle_webhook_unauthorized :
    (pf : Platform) (rv : Receiver) (r : Request) (body now now' : String) (c c' : Cluster)
    → r.body ≡ some body
    → authorize pf rv r body ≡ false
    → (handle_webhook pf rv c now r ≡ handle_webhook pf rv c' now' r)
      × ((handle_webhook pf rv c now r).status ≡ 401)
      × ((handle_webhook pf rv c now r).updated ≡ none)
unfolding handle_webhook
handle_webhook_unauthorized pf rv r body now now' c c' b h = rw (b, handle_webhook) (ground arith)

-- What a request wrote: it was authorized, carried a ref, and its object existed under another ref;
-- the written object has that ref, the time and the source, and is else as it was.
pub record Wrote (pf : Platform) (rv : Receiver) (c : Cluster) (now : String) (r : Request)
    (new : GatewaySync) : Type 0 where
  pub body : String
  pub old : GatewaySync
  pub was_read : r.body ≡ some body
  pub authorized : authorize pf rv r body ≡ true
  pub has_ref : (parse_payload pf body).0 ≢ ""
  pub found : c.found r.namespace r.cr_name ≡ some old
  pub was_other :
      lookup Annotation.requested_ref old.meta.annotations ≢ some (parse_payload pf body).0
  pub written : new ≡ annotate (parse_payload pf body).0 now (parse_payload pf body).1 old
  pub status : (handle_webhook pf rv c now r).status ≡ 202

-- The receiver writes an object only for a request that was authorized and carries a ref, and only
-- where the object of the request's path existed under another ref; what it writes is that object with
-- the ref, the time and the source as annotations, and the answer is 202.
pub handle_webhook-Wrote :
    (pf : Platform) (rv : Receiver) (c : Cluster) (now : String) (r : Request) (new : GatewaySync)
    → (handle_webhook pf rv c now r).updated ≡ some new
    → Wrote pf rv c now r new
unfolding handle_webhook
handle_webhook-Wrote pf rv c now r new h = elim (Option-cases r.body) [
  | inl e ↦ ground arith
  | inr (body, e) ↦ elim (Option-cases (c.found r.namespace r.cr_name)) [
    | inl f ↦ ground arith
    | inr (old, f) ↦ record {
      body = body;
      old = old;
      was_read = e;
      authorized = ground arith;
      has_ref = ground arith;
      found = f;
      was_other = ground arith;
      written = ground arith;
      status = ground arith;
    }
  ]
]

-- After an object is annotated, its three request annotations are the request's ref, time and source,
-- and every other annotation is as before.
lookup-annotate :
    (ref now source key : String) (gs : GatewaySync)
    → lookup key (annotate ref now source gs).meta.annotations ≡ (
        if key == Annotation.requested_by
        then some source
        else if key == Annotation.requested_at
        then some now
        else if key == Annotation.requested_ref
        then some ref
        else lookup key gs.meta.annotations)
unfolding annotate
lookup-annotate ref now source key gs = simp lookup-insert

requested_ref-annotate :
    (ref now source : String) (gs : GatewaySync)
    → lookup Annotation.requested_ref (annotate ref now source gs).meta.annotations ≡ some ref
unfolding string_eq
requested_ref-annotate ref now source gs =
    lookup-annotate ref now source Annotation.requested_ref gs

-- Where a request has written an object, the same request on the object that it wrote is accepted
-- with 202, writes nothing and records no event.
pub handle_webhook_again :
    (pf : Platform) (rv : Receiver) (c c' : Cluster) (now later : String) (r : Request)
    (new : GatewaySync)
    → (handle_webhook pf rv c now r).updated ≡ some new
    → c'.found r.namespace r.cr_name ≡ some new
    → ((handle_webhook pf rv c' later r).status ≡ 202)
      × ((handle_webhook pf rv c' later r).updated ≡ none)
      × ((handle_webhook pf rv c' later r).event ≡ false)
unfolding handle_webhook
handle_webhook_again pf rv c c' now later r new h f =
    let w = handle_webhook-Wrote pf rv c now r new h in
    let (ref, source) = parse_payload pf w.body in
    let same : lookup Annotation.requested_ref new.meta.annotations ≡ some ref =
      ap (λ (gs : GatewaySync). lookup Annotation.requested_ref gs.meta.annotations) w.written
      ∙ requested_ref-annotate ref now source w.old in
    ground (arith, w.was_read, w.authorized, w.has_ref, f, same)
