-- ===== src/Ignition/Designer.antt =====
-- internal/ignition/designer.go
use stoker_operator.Prelude.{
  ℕ, String, ◌<>◌, Option, none, some, List, [], ◌∷◌, ◌==◌, nat_eq, if◌then◌else◌,
}
use stoker_operator.Prelude.Text.{decimal}
use stoker_operator.Prelude.Outcome.{Outcome, done, failed}
use stoker_operator.Ignition.Client.{Client, Call, Answer, refused, response, set_auth, to_get}

-- `uptime` is an int64 that a gateway counts up from 0.
pub record DesignerSession : Type 0 where
  pub id : String
  pub user : String
  pub project : String
  pub address : String
  pub timezone : String
  pub uptime : ℕ

-- The JSON decoder on the list envelope: its error, or the items, where there are any.
abbrev pub Envelope : Type 0
Envelope = String → Outcome (Option (List DesignerSession))

abbrev pub items_or_empty : Outcome (Option (List DesignerSession)) → Outcome (List DesignerSession)
items_or_empty (failed e) = failed ("decoding designer sessions response: " <> e)
items_or_empty (done none) = done []
items_or_empty (done (some items)) = done items

unfoldable pub sessions_of : Envelope → Answer → Outcome (List DesignerSession)
sessions_of decode (refused e) = failed ("fetching designer sessions: " <> e)
sessions_of decode (response status body) =
    if status == 200
    then items_or_empty (decode body)
    else failed ("designer sessions API returned HTTP " <> decimal status)

unfoldable pub get_designer_sessions : Envelope → Client → Call (List DesignerSession)
unfolding sessions_of set_auth
get_designer_sessions decode c log =
    let url = c.base_url <> "/data/api/v1/designers" in
    elim (c.bad_url url) [
      | some e ↦ (log, failed ("creating designer sessions request: " <> e))
      | none ↦
          let req = set_auth c log (to_get url) in (req ∷ log, sessions_of decode (c.send log req))
    ]
