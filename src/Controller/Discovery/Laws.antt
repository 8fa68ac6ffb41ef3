-- ===== src/Controller/Discovery/Laws.antt =====
-- Which pods are gateways, and what a status adds to them.
use stoker_operator.Prelude.{
  ℕ, String, ◌≡◌, ◌≢◌, ◌⊎◌, inl, inr, refl, true, false, Option, none, some, List, [], ◌∷◌, Eq,
  ◌==◌, string_eq, arith, Option-cases, if◌then◌else◌,
}
use stoker_operator.Prelude.Dict.{Dict, lookup}
use stoker_operator.Api.{DiscoveredGateway}
use stoker_operator.Controller.Discovery.{
  GatewayStatus, Decoders, time_or, with_status, status_text, decoded, enrich,
  collect_gateway_status,
}

-- An agent's status as it stands in the ConfigMap's data: under the pod's name, or, where there is
-- nothing under that, under the gateway's.
pub data IsReport (d : Decoders) (cm_data : Dict String String) (gw : DiscoveredGateway)
    : GatewayStatus → Type 0 where
  by_pod :
      (text : String) (status : GatewayStatus)
      → lookup gw.pod_name cm_data ≡ some text
      → text ≢ ""
      → d.unmarshal text ≡ some status
      → IsReport d cm_data gw status
  by_name :
      (text : String) (status : GatewayStatus)
      → lookup gw.pod_name cm_data ≡ none
      → lookup gw.name cm_data ≡ some text
      → text ≢ ""
      → d.unmarshal text ≡ some status
      → IsReport d cm_data gw status

abbrev pub IsUnusable : Decoders → String → Type 0
IsUnusable d text = (text ≡ "") ⊎ (d.unmarshal text ≡ none)

-- Nothing to be read under the pod's name, or where that is missing under the gateway's.
pub data IsSilent (d : Decoders) (cm_data : Dict String String) (gw : DiscoveredGateway)
    : Type 0 where
  no_entry :
      lookup gw.pod_name cm_data ≡ none → lookup gw.name cm_data ≡ none → IsSilent d cm_data gw
  bad_pod_entry :
      (text : String)
      → lookup gw.pod_name cm_data ≡ some text
      → IsUnusable d text
      → IsSilent d cm_data gw
  bad_name_entry :
      (text : String)
      → lookup gw.pod_name cm_data ≡ none
      → lookup gw.name cm_data ≡ some text
      → IsUnusable d text
      → IsSilent d cm_data gw

-- The instant of the last sync: the reported one where it can be parsed.
abbrev pub IsTime : Decoders → Option ℕ → String → Option ℕ → Type 0
IsTime d old text new =
    (((text ≡ "") ⊎ (d.parse_time text ≡ none)) × (new ≡ old))
    ⊎ ((text ≢ "") × ((t : ℕ) × (d.parse_time text ≡ some t) × (new ≡ some t)))

-- Every field of the gateway after a report.
pub record Reports (d : Decoders) (gw : DiscoveredGateway) (status : GatewayStatus)
    (new : DiscoveredGateway) : Type 0 where
  pub same_pod : new.pod_name ≡ gw.pod_name
  pub same_name : new.name ≡ gw.name
  pub same_namespace : new.namespace ≡ gw.namespace
  pub same_account : new.service_account_name ≡ gw.service_account_name
  pub same_profile : new.profile ≡ gw.profile
  pub sync_status : new.sync_status ≡ status.sync_status
  pub commit : new.synced_commit ≡ status.synced_commit
  pub ref : new.synced_ref ≡ status.synced_ref
  pub duration : new.last_sync_duration ≡ status.last_sync_duration
  pub version : new.agent_version ≡ status.agent_version
  pub scan : new.last_scan_result ≡ status.last_scan_result
  pub files : new.files_changed ≡ status.files_changed
  pub projects : new.projects_synced ≡ status.projects_synced
  pub time : IsTime d gw.last_sync_time status.last_sync_time new.last_sync_time

-- A gateway before and after its status was looked for.
pub data Enriched (d : Decoders) (cm_data : Dict String String) (gw new : DiscoveredGateway)
    : Type 0 where
  reported :
      (status : GatewayStatus)
      → IsReport d cm_data gw status
      → Reports d gw status new
      → Enriched d cm_data gw new
  silent : IsSilent d cm_data gw → new ≡ gw → Enriched d cm_data gw new

IsTime-time_or :
    (d : Decoders) (old : Option ℕ) (text : String)
    → IsTime d old text (if text == "" then old else time_or old (d.parse_time text))
IsTime-time_or d old text = elim (Eq.dec string_eq text "") [
  | yes e ↦ inl (inl e, ground (arith, e))
  | no n ↦ elim (Option-cases (d.parse_time text)) [
    | inl bad ↦ inl (inr bad, ground (arith, n, bad))
    | inr (t, good) ↦ inr (n, (t, good, ground (arith, n, good)))
  ]
]

with_status-Reports :
    (d : Decoders) (gw : DiscoveredGateway) (status : GatewayStatus)
    → Reports d gw status (with_status d gw status)
unfolding with_status
with_status-Reports d gw status = record {
  same_pod = refl;
  same_name = refl;
  same_namespace = refl;
  same_account = refl;
  same_profile = refl;
  sync_status = refl;
  commit = refl;
  ref = refl;
  duration = refl;
  version = refl;
  scan = refl;
  files = refl;
  projects = refl;
  time = IsTime-time_or d gw.last_sync_time status.last_sync_time;
}

decoded_cases :
    (d : Decoders) (text : String)
    → (IsUnusable d text × (decoded d (some text) ≡ none))
      ⊎ ((text ≢ "")
          × ((status : GatewayStatus) × (d.unmarshal text ≡ some status)
              × (decoded d (some text) ≡ some status)))
decoded_cases d text = elim (Eq.dec string_eq text "") [
  | yes e ↦ inl (inl e, ground (arith, e))
  | no n ↦ elim (Option-cases (d.unmarshal text)) [
    | inl bad ↦ inl (inr bad, ground (arith, n, bad))
    | inr (status, good) ↦ inr (n, (status, good, ground (arith, n, good)))
  ]
]

enrich-Enriched :
    (d : Decoders) (cm_data : Dict String String) (gw : DiscoveredGateway)
    → Enriched d cm_data gw (enrich d cm_data gw)
unfolding enrich status_text
enrich-Enriched d cm_data gw = elim (Option-cases (lookup gw.pod_name cm_data)) [
  | inr (text, e) ↦ elim (decoded_cases d text) [
    | inl (bad, u) ↦ rw (e, u) (silent (bad_pod_entry text e bad) refl)
    | inr (n, (status, good, u)) ↦
        rw (e, u) (reported status (by_pod text status e n good) (with_status-Reports d gw status))
  ]
  | inl e ↦ elim (Option-cases (lookup gw.name cm_data)) [
    | inl f ↦ rw (e, f) (silent (no_entry e f) refl)
    | inr (text, f) ↦ elim (decoded_cases d text) [
      | inl (bad, u) ↦ rw (e, f, u) (silent (bad_name_entry text e f bad) refl)
      | inr (n, (status, good, u)) ↦
          rw (e, f, u)
            (reported status (by_name text status e f n good) (with_status-Reports d gw status))
    ]
  ]
]

-- The two lists go together, element by element.
abbrev pub Each {ℓ} : {A : Type ℓ} → (A → A → Type 0) → List A → List A → Type 0
Each R [] [] = Unit
Each R (x ∷ xs) (y ∷ ys) = R x y × Each R xs ys
Each R [] (y ∷ ys) = true ≡ false
Each R (x ∷ xs) [] = true ≡ false

-- With a status ConfigMap that was read, each gateway stays at its place. Its entry is the one under its
-- pod's name, or where that is missing under its own. Where the entry is not empty and can be decoded,
-- the gateway keeps its name, namespace, pod, account and profile and has every other field from the
-- report, the instant of the last sync only where it can be parsed; else the gateway is as it was.
pub collect_gateway_status-Enriched :
    (d : Decoders) (cm_data : Dict String String) (gws : List DiscoveredGateway)
    → Each (Enriched d cm_data) gws (collect_gateway_status d (some cm_data) gws)
unfolding collect_gateway_status
collect_gateway_status-Enriched d cm_data [] = tt
collect_gateway_status-Enriched d cm_data (gw ∷ gws) =
    (enrich-Enriched d cm_data gw, collect_gateway_status-Enriched d cm_data gws)
