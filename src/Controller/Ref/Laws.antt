-- ===== src/Controller/Ref/Laws.antt =====
-- The intervals, the token cache and the requested ref.
use stoker_operator.Prelude.{
  ◌+◌, ◌≤◌, ◌<◌, ◌≡◌, ◌≢◌, refl, ◌⊎◌, inl, inr, String, Option, none, some, ==_refl, ltb, string_eq,
  nat_eq, arith, Option-cases, Bool-cases,
}
use stoker_operator.Prelude.Dict.{lookup, erase, lookup-insert, lookup-erase}
use stoker_operator.Api.{GitHubAppAuth, GatewaySync}
use stoker_operator.Api.Annotation
use stoker_operator.Git.Remote.{GitResult, ls_remote, ls_remote-ref}
use stoker_operator.Git.Auth.{AuthMethod, basic, secret_value, resolve_auth}
use stoker_operator.Webhook.Inject.Auth.{git_hub_app_of}
use stoker_operator.Controller.Ref.{
  CachedToken, TokenCache, World, token_refresh_buffer, cache_key, cached_git_hub_token,
  store_git_hub_token, polling_interval, requeue_interval, still_valid, exchanged, exchange_pem,
  token_or, list_remote, with_token, with_auth, ask_remote, erase_requested,
  resolve_git_hub_app_token, resolved_to, wanted_ref, is_recent, resolve_ref, trim_v,
  clear_requested_ref_if_caught_up,
}

-- Where the object authenticates by a GitHub App whose cached token expires in more than 5 minutes,
-- the next reconcile comes no later than 5 minutes before that, and no later than the polling
-- interval asks where polling is on; and it does come, also where polling is off.
pub requeue_interval-token :
    (w : World) (cache : TokenCache) (gs : GatewaySync) (app : GitHubAppAuth) (cached : CachedToken)
    → git_hub_app_of gs.spec.git.auth ≡ some app
    → cached_git_hub_token (cache_key app) cache ≡ some cached
    → w.now + token_refresh_buffer < cached.expiry
    → (0 < requeue_interval w cache gs)
      × (w.now + requeue_interval w cache gs + token_refresh_buffer ≤ cached.expiry)
      × ((0 < polling_interval w gs) → requeue_interval w cache gs ≤ polling_interval w gs)
unfolding requeue_interval
requeue_interval-token w cache gs app cached e f h = rw (e, f, requeue_interval) (ground arith)

list_remote-ref :
    (w : World) (gs : GatewaySync) (ref : String) (auth : AuthMethod) (r : GitResult)
    → list_remote w gs ref auth ≡ resolved_to r
    → r.ref ≡ ref
list_remote-ref w gs ref auth r h =
    elim (Option-cases (ls_remote w.is_hash w.advertised gs.spec.git.repo ref auth)) [
      | inl e ↦ ground arith
      | inr (found, e) ↦
          let same = ls_remote-ref w.is_hash w.advertised gs.spec.git.repo ref auth found e in
          ground (arith, same)
    ]

with_token-ref :
    (w : World) (gs : GatewaySync) (ref : String) (t : Option String × TokenCache) (r : GitResult)
    → (with_token w gs ref t).0 ≡ resolved_to r
    → r.ref ≡ ref
with_token-ref w gs ref (none, cache) r h = ground arith
with_token-ref w gs ref (some token, cache) r h = list_remote-ref w gs ref (basic token) r h

with_auth-ref :
    (w : World) (gs : GatewaySync) (ref : String) (a : Option AuthMethod) (r : GitResult)
    → with_auth w gs ref a ≡ resolved_to r
    → r.ref ≡ ref
with_auth-ref w gs ref none r h = ground arith
with_auth-ref w gs ref (some auth) r h = list_remote-ref w gs ref auth r h

ask_remote-ref :
    (w : World) (cache : TokenCache) (gs : GatewaySync) (ref : String) (o : Option GitHubAppAuth)
    (r : GitResult)
    → (ask_remote w cache gs ref o).0 ≡ resolved_to r
    → r.ref ≡ ref
ask_remote-ref w cache gs ref (some app) r h =
    with_token-ref w gs ref (resolve_git_hub_app_token w cache app) r h
ask_remote-ref w cache gs ref none r h =
    with_auth-ref w gs ref (resolve_auth w.calls gs.spec.git.auth) r h

-- A resolution is of the ref that is wanted, the webhook's or else the specification's: a result that
-- the status keeps from an earlier ref is not taken for it.
pub resolve_ref-ref :
    (w : World) (cache : TokenCache) (gs : GatewaySync) (r : GitResult)
    → (resolve_ref w cache gs).0 ≡ resolved_to r
    → r.ref ≡ wanted_ref gs
unfolding resolve_ref is_recent
resolve_ref-ref w cache gs r h =
    let app = git_hub_app_of gs.spec.git.auth in
    ground (arith, ask_remote-ref w cache gs (wanted_ref gs) app r)

-- The cache holds the token under the key, and it is good for more than 5 minutes or was exchanged
-- just now.
abbrev pub HoldsToken : World → GitHubAppAuth → TokenCache → String → Type 0
HoldsToken w app cache token =
    (cached : CachedToken) × (cached_git_hub_token (cache_key app) cache ≡ some cached)
    × (cached.token ≡ token)
    × ((w.now + token_refresh_buffer < cached.expiry)
        ⊎ ((pem : String) × (w.calls.exchange pem app
              ≡ some (record { token = cached.token; expires_at = cached.expiry }))))

exchanged-HoldsToken :
    (w : World) (cache : TokenCache) (app : GitHubAppAuth) (token : String) (pem : Option String)
    → (exchanged (cache_key app) cache (exchange_pem w.calls app pem)).0 ≡ some token
    → HoldsToken w app (exchanged (cache_key app) cache (exchange_pem w.calls app pem)).1 token
unfolding cached_git_hub_token store_git_hub_token
exchanged-HoldsToken w cache app token none h = ground arith
exchanged-HoldsToken w cache app token (some pem) h =
    elim (Option-cases (w.calls.exchange pem app)) [
      | inl e ↦ ground arith
      | inr (result, e) ↦
          let stored : CachedToken = record { token = result.token; expiry = result.expires_at } in
          let same = ==_refl (cache_key app) in
          (
            stored,
            rw e (ground (arith, lookup-insert (cache_key app) (cache_key app) stored cache, same)),
            ground (arith, e),
            inr (pem, e),
          )
    ]

token_or-HoldsToken :
    (w : World) (cache : TokenCache) (app : GitHubAppAuth) (token : String) (o : Option CachedToken)
    (later : Option String × TokenCache)
    → cached_git_hub_token (cache_key app) cache ≡ o
    → (later.0 ≡ some token → HoldsToken w app later.1 token)
    → (token_or (still_valid w.now o) cache later).0 ≡ some token
    → HoldsToken w app (token_or (still_valid w.now o) cache later).1 token
token_or-HoldsToken w cache app token none later e k h = k h
token_or-HoldsToken w cache app token (some cached) later e k h =
    elim (Bool-cases (ltb (w.now + token_refresh_buffer) cached.expiry)) [
      | inl b ↦ (cached, rw (b, e) refl, ground (arith, b), inl (ground (arith, b)))
      | inr b ↦ rw b (k (ground (arith, b)))
    ]

-- The token of a reconcile: the cache holds it afterwards, and where it was not exchanged just now it
-- is good for more than 5 minutes.
pub resolve_git_hub_app_token-HoldsToken :
    (w : World) (cache : TokenCache) (app : GitHubAppAuth) (token : String)
    → (resolve_git_hub_app_token w cache app).0 ≡ some token
    → HoldsToken w app (resolve_git_hub_app_token w cache app).1 token
unfolding resolve_git_hub_app_token
resolve_git_hub_app_token-HoldsToken w cache app token h =
    let pem = secret_value w.calls app.private_key_secret_ref in
    let key = cache_key app in
    token_or-HoldsToken w cache app token (cached_git_hub_token key cache)
      (exchanged key cache (exchange_pem w.calls app pem)) refl
      (exchanged-HoldsToken w cache app token pem) h

erase_requested_lem :
    (ref : String) (fresh new : GatewaySync)
    → erase_requested ref (some fresh) ≡ some new
    → new ≡ (
        let m = fresh.meta in
        record fresh {
          meta = record m { annotations = erase Annotation.requested_ref m.annotations };
        })
erase_requested_lem ref fresh new h =
    elim (Option-cases (lookup Annotation.requested_ref fresh.meta.annotations)) [
      | inl e ↦ ground arith
      | inr (old, e) ↦ ground arith
    ]

-- What the clearing of a requested ref does to an object: that annotation goes, every other stays, and
-- from then on the ref that is wanted is the specification's. It is done only where the two refs are
-- the same up to a "v" in front.
pub clear_requested_ref_if_caught_up-wanted_ref :
    (gs fresh new : GatewaySync)
    → clear_requested_ref_if_caught_up gs (some fresh) ≡ some new
    → (trim_v (wanted_ref gs) ≡ trim_v gs.spec.git.ref)
      × (wanted_ref new ≡ fresh.spec.git.ref)
      × ((key : String)
          → key ≢ Annotation.requested_ref
          → lookup key new.meta.annotations ≡ lookup key fresh.meta.annotations)
unfolding clear_requested_ref_if_caught_up wanted_ref
clear_requested_ref_if_caught_up-wanted_ref gs fresh new h =
    let erased =
      λ (key : String). lookup-erase key Annotation.requested_ref fresh.meta.annotations in
    let same = ==_refl Annotation.requested_ref in
    elim (Option-cases (lookup Annotation.requested_ref gs.meta.annotations)) [
      | inl e ↦ ground arith
      | inr (ref, e) ↦
          let is_new = erase_requested_lem ref fresh new (ground (arith, e)) in
          (
            ground (arith, e),
            rw (is_new, erased Annotation.requested_ref) (ground (arith, same)),
            λ key other. rw (is_new, erased key) (ground (arith, other)),
          )
    ]

-- The clearing keeps the specification and the status.
pub clear_requested_ref_if_caught_up-same :
    (gs : GatewaySync) (o : Option GatewaySync) (new : GatewaySync)
    → clear_requested_ref_if_caught_up gs o ≡ some new
    → (fresh : GatewaySync) × (o ≡ some fresh)
      × (new.spec ≡ fresh.spec)
      × (new.status ≡ fresh.status)
unfolding clear_requested_ref_if_caught_up
clear_requested_ref_if_caught_up-same gs none new h =
    elim (Option-cases (lookup Annotation.requested_ref gs.meta.annotations)) [
      | inl e ↦ ground arith
      | inr (ref, e) ↦ ground (arith, e)
    ]
clear_requested_ref_if_caught_up-same gs (some fresh) new h =
    elim (Option-cases (lookup Annotation.requested_ref gs.meta.annotations)) [
      | inl e ↦ ground arith
      | inr (ref, e) ↦
          let is_new = erase_requested_lem ref fresh new (ground (arith, e)) in
          (fresh, refl, rw is_new refl, rw is_new refl)
    ]
