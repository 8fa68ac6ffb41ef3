-- ===== src/Agent/ConfigMaps/Meet.antt =====
-- The two ConfigMaps by which the controller and the agents speak to each other.
use stoker_operator.Prelude.{
  ℕ, String, ◌<>◌, ◌≡◌, ◌≢◌, ◌⊎◌, inl, inr, refl, ◌∙◌, Bool, true, false, ◌&&◌, none, some, arith,
  ==_refl, string_eq, nat_eq, Option-cases, Bool-cases,
}
use stoker_operator.Prelude.Dict.{Dict, lookup, insert, lookup-insert}
use stoker_operator.Prelude.Outcome.{Outcome, done}
use stoker_operator.Api.{GatewaySync}
use stoker_operator.Api.Annotation
use stoker_operator.Api.Pod.{Pod}
use stoker_operator.Git.Remote.{GitResult}
use stoker_operator.Webhook.Inject.Auth.{resolve_auth_type, git_hub_app_of}
use stoker_operator.Webhook.Inject.Sidecar.{annotation}
use stoker_operator.Agent.Config.{or_default}
use stoker_operator.Controller.Profiles.{ResolvedProfile, resolve_profiles}
use stoker_operator.Controller.Ref.{TokenCache}
use stoker_operator.Controller.Discovery.{
  GatewayStatus, Decoders, with_status, status_text, decoded, enrich, gateway_of, gateway_name_of,
}
use stoker_operator.Controller.Metadata.{
  fresh_map, Stored, Objects, Api, metadata_values, is_value, includes, same_map, bool_text, ensure,
  ensure_values, ensure_metadata_config_map, token_secret,
}
use stoker_operator.Agent.ConfigMaps.{
  Metadata, metadata_of, text_at, metadata_config_map_name, found, read_metadata_config_map,
  parse_resolved_profiles, StatusServer, write_status_config_map,
}
use stoker_operator.Agent.ConfigMaps.Laws.{
  write_status_config_map-Ends, stored_of_Ends, lookup_of_StoredAt,
}

-- What an agent is to read of an object and of the commit that its ref stands for.
abbrev pub told : (Dict String ResolvedProfile → String) → GatewaySync → GitResult → Metadata
told marshal gs result = record {
  commit = result.commit;
  ref = result.ref;
  git_url = gs.spec.git.repo;
  paused = bool_text gs.spec.paused;
  profiles = marshal (resolve_profiles gs);
  auth_type = resolve_auth_type gs.spec.git.auth;
}

metadata_of-metadata_values :
    (marshal : Dict String ResolvedProfile → String) (gs : GatewaySync) (result : GitResult)
    → metadata_of (metadata_values marshal gs result) ≡ told marshal gs result
unfolding metadata_of metadata_values lookup string_eq
metadata_of-metadata_values marshal gs result = refl

text_at_of_value :
    (k v : String) (d : Dict String String) → is_value v (lookup k d) ≡ true → text_at k d ≡ v
text_at_of_value k v d h = ground (arith, h)

and_split : (a b : Bool) → (a && b) ≡ true → (a ≡ true) × (b ≡ true)
and_split true b h = (refl, h)
and_split false b h = absurd (cc)

metadata_of-same_map :
    (marshal : Dict String ResolvedProfile → String) (gs : GatewaySync) (result : GitResult)
    (d : Dict String String)
    → same_map d (metadata_values marshal gs result) ≡ true
    → metadata_of d ≡ told marshal gs result
unfolding same_map includes metadata_values metadata_of
metadata_of-same_map marshal gs result d h =
    let h0 = (and_split _ _ h).1 in
    let (commit, h1) = and_split _ _ h0 in
    let (ref, h2) = and_split _ _ h1 in
    let (url, h3) = and_split _ _ h2 in
    let (paused, h4) = and_split _ _ h3 in
    let (auth, h5) = and_split _ _ h4 in
    let (profiles, h6) = and_split _ _ h5 in
    rw
      (
        text_at_of_value "commit" result.commit d commit,
        text_at_of_value "ref" result.ref d ref,
        text_at_of_value "gitURL" gs.spec.git.repo d url,
        text_at_of_value "paused" (bool_text gs.spec.paused) d paused,
        text_at_of_value "authType" (resolve_auth_type gs.spec.git.auth) d auth,
        text_at_of_value "profiles" (marshal (resolve_profiles gs)) d profiles,
      )
      refl

-- The ConfigMap of that name holds values that an agent reads so.
abbrev Tells : Metadata → String → Dict String Stored → Type 0
Tells meta name config_maps =
    (cm : Stored) × (lookup name config_maps ≡ some cm) × (metadata_of cm.values ≡ meta)

Tells-insert :
    (meta : Metadata) (name : String) (cm : Stored) (config_maps : Dict String Stored)
    → metadata_of cm.values ≡ meta
    → Tells meta name (insert name cm config_maps)
Tells-insert meta name cm config_maps h =
    (cm, lookup-insert name name cm config_maps ∙ ground (arith, ==_refl {A = String} name), h)

module _ (api : Api) (marshal : Dict String ResolvedProfile → String) (gs : GatewaySync)
    (result : GitResult) where
  abbrev values : Dict String String
  values = metadata_values marshal gs result

  abbrev meta : Metadata
  meta = told marshal gs result

  abbrev name : String
  name = "stoker-metadata-" <> gs.meta.name

  ensure_values-Tells :
      (config_maps : Dict String Stored)
      → (ensure_values api gs values config_maps).0 ≡ true
      → Tells meta name (ensure_values api gs values config_maps).1
  unfolding ensure_values ensure
  ensure_values-Tells config_maps h =
      let got : api.get_succeeds name ≡ true = ground (arith, h) in
      elim (Option-cases (lookup name config_maps)) [
        | inl e ↦
            let owned : api.owner_is_settable ≡ true = ground (arith, h, e, got) in
            let made : api.create_succeeds name ≡ true = ground (arith, h, e, got, owned) in
            rw (got, e, owned, made)
              (Tells-insert meta name (fresh_map gs values) config_maps
                (metadata_of-metadata_values marshal gs result))
        | inr (old, e) ↦ elim (Bool-cases (same_map old.values values)) [
          | inl same ↦
              rw (got, e, same) (old, e, metadata_of-same_map marshal gs result old.values same)
          | inr differ ↦
              let made : api.update_succeeds name ≡ true = ground (arith, h, e, got, differ) in
              rw (got, e, differ, made)
                (Tells-insert meta name (record old { values = values }) config_maps
                  (metadata_of-metadata_values marshal gs result))
        ]
      ]

  ensure_metadata_config_map-Tells :
      (cache : TokenCache) (objects : Objects)
      → (ensure_metadata_config_map api marshal cache gs result objects).0 ≡ true
      → Tells meta name
          (ensure_metadata_config_map api marshal cache gs result objects).1.config_maps
  unfolding ensure_metadata_config_map
  ensure_metadata_config_map-Tells cache objects h =
      let secret_ok : (token_secret api gs cache (git_hub_app_of gs.spec.git.auth)
            objects.secrets).0
          ≡ true =
        ground (arith, h) in
      let ok : (ensure_values api gs values objects.config_maps).0 ≡ true =
        ground (arith, h, secret_ok) in
      rw secret_ok (ensure_values-Tells objects.config_maps ok)

  -- Where the profiles' encoding is not empty and is decoded to the same profiles: once the controller's
  -- write of the metadata ConfigMap succeeds, whether it made, changed or left the ConfigMap, an agent
  -- that reads it gets the resolved commit and ref, the repository, whether the object is paused, the
  -- kind of authentication, and the resolved profiles.
  pub read_metadata_config_map-told :
      (unmarshal : String → Outcome (Dict String ResolvedProfile)) (cache : TokenCache)
      (objects : Objects)
      → (ensure_metadata_config_map api marshal cache gs result objects).0 ≡ true
      → marshal (resolve_profiles gs) ≢ ""
      → unmarshal (marshal (resolve_profiles gs)) ≡ done (resolve_profiles gs)
      → (cm : Stored) × (lookup
            (metadata_config_map_name gs.meta.name)
            (ensure_metadata_config_map api marshal cache gs result objects).1.config_maps
          ≡ some cm)
        × (read_metadata_config_map gs.meta.name (found cm) ≡ done (told marshal gs result))
        × (parse_resolved_profiles unmarshal (told marshal gs result).profiles
            ≡ done (resolve_profiles gs))
  unfolding metadata_config_map_name read_metadata_config_map parse_resolved_profiles
  read_metadata_config_map-told unmarshal cache objects h some_text same =
      let (cm, at, reads) = ensure_metadata_config_map-Tells cache objects h in
      (cm, at, rw reads refl, ground (arith, some_text, same))

gateway_name-annotation :
    (pod : Pod)
    → (annotation Annotation.gateway_name pod ≢ "")
    → (gateway_of pod).name ≡ annotation Annotation.gateway_name pod
unfolding gateway_of gateway_name_of
gateway_name-annotation pod h = ground (arith, h)

pod_name-gateway_of : (pod : Pod) → (gateway_of pod).pod_name ≡ pod.meta.name
unfolding gateway_of
pod_name-gateway_of pod = refl

abbrev pub written_name : Pod → String
written_name pod = or_default (annotation Annotation.gateway_name pod) pod.meta.name

-- The controller looks at the agent's entry.
status_text-written :
    (values : Dict String String) (pod : Pod) (json : String)
    → lookup (written_name pod) values ≡ some json
    → (annotation Annotation.gateway_name pod ≡ "") ⊎ (lookup pod.meta.name values ≡ none)
    → status_text values (gateway_of pod) ≡ some json
unfolding status_text
status_text-written values pod json h alone =
    elim (string_eq.dec (annotation Annotation.gateway_name pod) "") [
      | yes unnamed ↦
          let at : lookup pod.meta.name values ≡ some json = ground (arith, h, unnamed) in
          rw (pod_name-gateway_of pod, at) refl
      | no named ↦
          let at : lookup (annotation Annotation.gateway_name pod) values ≡ some json =
            ground (arith, h, named) in
          let free : lookup pod.meta.name values ≡ none = ground (arith, alone, named) in
          rw (pod_name-gateway_of pod, free, gateway_name-annotation pod named, at) refl
    ]

-- Where an agent's write of its status succeeds, the encoding of the status is not empty and is decoded
-- to that status, and the agent's gateway name is its pod's name annotation or else the pod's name: the
-- controller, reading the stored ConfigMap, gives the gateway that it discovers at that pod exactly that
-- status, provided that the pod has no name annotation or that no entry stands under the pod's own name.
pub enrich-written :
    (marshal : GatewayStatus → Outcome String) (s : StatusServer) (d : Decoders) (cr_name : String)
    (i : ℕ) (pod : Pod) (status : GatewayStatus) (json : String) (cm : Stored)
    → marshal status ≡ done json
    → json ≢ ""
    → d.unmarshal json ≡ some status
    → write_status_config_map marshal s cr_name (written_name pod) i status ≡ (some cm, done tt)
    → (annotation Annotation.gateway_name pod ≡ "") ⊎ (lookup pod.meta.name cm.values ≡ none)
    → enrich d cm.values (gateway_of pod) ≡ with_status d (gateway_of pod) status
unfolding enrich
enrich-written marshal s d cr_name i pod status json cm encoded some_text decodes wrote alone =
    let ends =
      write_status_config_map-Ends marshal s cr_name (written_name pod) i status json encoded in
    let (j, at) = stored_of_Ends s cr_name (written_name pod) json i 3 _ cm ends wrote in
    let text =
      status_text-written cm.values pod json
        (lookup_of_StoredAt s cr_name (written_name pod) json j cm at) alone in
    let read : decoded d (some json) ≡ some status = ground (arith, some_text, decodes) in
    rw (text, read) refl
