-- ===== src/Ignition/Client.antt =====
-- internal/ignition/client.go. The gateway is its answers to the requests, and a call adds the
-- requests that it sends to the log of those sent before.
use stoker_operator.Prelude.{
  ℕ, zero, suc, String, ◌<>◌, Bool, ◌&&◌, Option, none, some, List, ◌∷◌, ◌==◌, string_eq, nat_eq,
  leb, ltb, if◌then◌else◌,
}
use stoker_operator.Prelude.Text.{trim_space, decimal}
use stoker_operator.Prelude.Outcome.{Outcome, done, failed}

-- `token` is the header `X-Ignition-API-Token`.
pub record Request : Type 0 where
  pub method : String
  pub url : String
  pub token : Option String

-- What `HTTPClient.Do` yields: its error, or a status and a body.
pub data Answer : Type 0 where
  refused : String → Answer
  response : ℕ → String → Answer

-- The requests sent so far, the latest first.
abbrev pub Log : Type 0
Log = List Request

abbrev pub Call : Type 0 → Type 0
Call A = Log → Log × Outcome A

-- `api_key` is read for each request; without one, `APIKey` is nil. `bad_url` is the error of
-- `http.NewRequest`.
pub record Client : Type 0 where
  pub base_url : String
  pub api_key : Option (Log → String)
  pub bad_url : String → Option String
  pub send : Log → Request → Answer

unfoldable pub with_key : String → Request → Request
with_key key req = if key == "" then req else record req { token = some key }

abbrev pub keyed : Option (Log → String) → Log → Request → Request
keyed none log req = req
keyed (some read) log req = with_key (trim_space (read log)) req

unfoldable pub set_auth : Client → Log → Request → Request
unfolding with_key
set_auth c log req = keyed c.api_key log req

abbrev pub is_success : ℕ → Bool
is_success status = leb 200 status && ltb status 300

-- An answer as the status of a scan, or the error that is kept for the next attempt.
unfoldable pub scan_status : Answer → Outcome ℕ
scan_status (refused e) = failed e
scan_status (response status body) =
    if is_success status then done status else failed ("HTTP " <> decimal status)

abbrev pub to_post : String → Request
to_post url = record { method = "POST"; url = url; token = none }

-- The attempts that are left, after one that failed with that error.
unfoldable pub post_attempts : Client → String → ℕ → String → Call ℕ
unfolding set_auth scan_status
post_attempts c url zero last_err log = (log, failed ("after 3 retries: " <> last_err))
post_attempts c url (suc attempts) last_err log = elim (c.bad_url url) [
  | some e ↦ (log, failed ("creating request: " <> e))
  | none ↦ elim (scan_status (c.send log (set_auth c log (to_post url)))) [
    | done status ↦ (set_auth c log (to_post url) ∷ log, done status)
    | failed e ↦ post_attempts c url attempts e (set_auth c log (to_post url) ∷ log)
  ]
]

unfoldable pub post_scan : Client → String → Call ℕ
unfolding post_attempts
post_scan c path log = post_attempts c (c.base_url <> path) 3 "" log

-- A status that was not obtained is 0, and no error is the empty text.
pub record ScanResult : Type 0 where
  pub projects_status : ℕ
  pub config_status : ℕ
  pub error : String

-- ScanResult.String
unfoldable pub scan_text : ScanResult → String
scan_text r =
    if r.error == ""
    then "projects=" <> (decimal r.projects_status <> (" config=" <> decimal r.config_status))
    else "error: " <> r.error

-- What follows the scan of the projects, and what follows that of the configuration.
unfoldable pub after_config : ℕ → Log × Outcome ℕ → Log × ScanResult
after_config projects (log, failed e) =
    (log, record { projects_status = projects; config_status = 0; error = "scan/config: " <> e })
after_config projects (log, done status) =
    (log, record { projects_status = projects; config_status = status; error = "" })

unfoldable pub after_projects : Client → Log × Outcome ℕ → Log × ScanResult
unfolding post_scan after_config
after_projects c (log, failed e) =
    (log, record { projects_status = 0; config_status = 0; error = "scan/projects: " <> e })
after_projects c (log, done status) =
    after_config status (post_scan c "/data/api/v1/scan/config" log)

unfoldable pub trigger_scan : Client → Log → Log × ScanResult
unfolding after_projects post_scan
trigger_scan c log = after_projects c (post_scan c "/data/api/v1/scan/projects" log)

abbrev pub to_get : String → Request
to_get url = record { method = "GET"; url = url; token = none }

unfoldable pub health_of : Answer → Outcome (Unit {0})
health_of (refused e) = failed ("gateway health check: " <> e)
health_of (response status body) =
    if is_success status then done tt else failed ("gateway returned HTTP " <> decimal status)

unfoldable pub health_check : Client → Call (Unit {0})
unfolding set_auth health_of
health_check c log =
    let url = c.base_url <> "/data/api/v1/gateway-info" in
    elim (c.bad_url url) [
      | some e ↦ (log, failed ("creating request: " <> e))
      | none ↦ let req = set_auth c log (to_get url) in (req ∷ log, health_of (c.send log req))
    ]

unfoldable pub port_of : Answer → Outcome (Unit {0})
port_of (refused e) = failed ("gateway port check: " <> e)
port_of (response status body) =
    if status == 503 then failed "gateway returned HTTP 503 (still starting)" else done tt

-- No key is sent. An error of `http.NewRequest` is one of `Get` too.
unfoldable pub port_check : Client → Call (Unit {0})
unfolding port_of
port_check c log =
    let url = c.base_url <> "/system/gwinfo" in
    elim (c.bad_url url) [
      | some e ↦ (log, port_of (refused e))
      | none ↦ let req = to_get url in (req ∷ log, port_of (c.send log req))
    ]
