-- ===== src/Ignition/Tests.antt =====
-- A scan at concrete data.
use stoker_operator.Prelude.{◌≡◌, refl, none, some, [], ◌∷◌, length, string_eq, nat_eq}
use stoker_operator.Ignition.Client.{Client, Log, Answer, refused, response, trigger_scan}
use stoker_operator.Ignition.Laws.{Scanned, trigger_scan-Scanned}

-- The gateway refuses the first request and accepts the others.
abbrev answers : Log → Answer
answers [] = refused "connection refused"
answers (r ∷ log) = response 200 ""

abbrev gateway : Client
gateway = record {
  base_url = "http://localhost:8088";
  api_key = some (λ log. " key\n");
  bad_url = λ url. none;
  send = λ log req. answers log;
}

scan_retries :
    (length (trigger_scan gateway []).0 ≡ 3)
    × ((trigger_scan gateway []).1
        ≡ record { projects_status = 200; config_status = 200; error = "" })
unfolding trigger_scan string_eq nat_eq
scan_retries = (refl, refl)

trigger_scan-Scanned_example : Scanned gateway [] (trigger_scan gateway [])
trigger_scan-Scanned_example = trigger_scan-Scanned gateway []
