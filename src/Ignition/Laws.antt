-- ===== src/Ignition/Laws.antt =====
-- What a scan asks of the gateway, and when it counts as done.
use mathlib.Core.List.{append_assoc}
use Prim.Native.Char.{Char}
use text.Mathlib.TextLemmas
use text.Mathlib.TextPositions.{starts_with-append}
use stoker_operator.Prelude.{
  ℕ, zero, suc, ◌≤◌, String, ◌<>◌, ◌≡◌, ◌≢◌, refl, sym, ap, ◌∙◌, true, false, Option, none, some,
  List, [], ◌∷◌, ◌++◌, All, length, arith, string_eq, starts_with, Option-cases, inl, inr, ◌⊎◌,
  Bool-cases, length-append,
}
use stoker_operator.Prelude.Outcome.{Outcome, done, failed}
use stoker_operator.Prelude.Text.{contains_text, decimal}
use stoker_operator.Ignition.Client.{
  Client, Request, Answer, refused, response, Log, set_auth, with_key, to_post, is_success,
  scan_status, keyed, post_attempts, post_scan, ScanResult, scan_text, after_config, after_projects,
  trigger_scan,
}

-- A POST to that address.
abbrev pub Asks : String → Request → Type 0
Asks url req = (req.method ≡ "POST") × (req.url ≡ url)

-- At most so many requests were sent, all to that address, and a status that is returned is one of
-- success.
pub record Posted (url : String) (n : ℕ) (log : Log) (r : Log × Outcome ℕ) : Type 0 where
  pub sent : Log
  pub adds : r.0 ≡ sent ++ log
  pub few : length sent ≤ n
  pub all_ask : All (Asks url) sent
  pub succeeds : (status : ℕ) → r.1 ≡ done status → is_success status ≡ true

All-append {ℓ κ} :
    {A : Type ℓ} (P : A → Type κ) (xs ys : List A) → All P xs → All P ys → All P (xs ++ ys)
All-append P [] ys h k = k
All-append P (x ∷ xs) ys h k = (h.0, All-append P xs ys h.1 k)

keyed-Asks :
    (key : Option (Log → String)) (log : Log) (url : String)
    → Asks url (keyed key log (to_post url))
unfolding with_key
keyed-Asks none log url = (refl, refl)
keyed-Asks (some read) log url = ground arith

scan_status-cases :
    (a : Answer)
    → ((status : ℕ) × (scan_status a ≡ done status) × (is_success status ≡ true))
      ⊎ ((e : String) × (scan_status a ≡ failed e))
unfolding scan_status
scan_status-cases (refused e) = inr (e, refl)
scan_status-cases (response s body) = elim (Bool-cases (is_success s)) [
  | inl good ↦ inl (s, rw good refl, good)
  | inr bad ↦ inr ("HTTP " <> decimal s, rw bad refl)
]

module _ (c : Client) (url : String) where
  abbrev post : Log → Request
  post log = set_auth c log (to_post url)

  post-Asks : (log : Log) → Asks url (post log)
  unfolding set_auth
  post-Asks log = keyed-Asks c.api_key log url

  again-Posted :
      (n : ℕ) (log : Log) (r : Log × Outcome ℕ)
      → Posted url n (post log ∷ log) r
      → Posted url (suc n) log r
  again-Posted n log r p = record {
    sent = p.sent ++ post log ∷ [];
    adds = p.adds ∙ sym (append_assoc p.sent (post log ∷ []) log);
    few = omega (arith, p.few, length-append p.sent (post log ∷ []));
    all_ask = All-append (Asks url) p.sent (post log ∷ []) p.all_ask (post-Asks log, tt);
    succeeds = p.succeeds;
  }

  none-Posted : (n : ℕ) (log : Log) (e : String) → Posted url n log (log, failed e)
  none-Posted n log e = record {
    sent = [];
    adds = refl;
    few = omega arith;
    all_ask = tt;
    succeeds = λ status h. absurd (cc);
  }

  one-Posted :
      (n : ℕ) (log : Log) (status : ℕ)
      → is_success status ≡ true
      → Posted url (suc n) log (post log ∷ log, done status)
  one-Posted n log status s = record {
    sent = post log ∷ [];
    adds = refl;
    few = omega arith;
    all_ask = (post-Asks log, tt);
    succeeds = λ k h. ground (arith, s, h);
  }

  post_attempts-Posted :
      (n : ℕ) (last_err : String) (log : Log)
      → Posted url n log (post_attempts c url n last_err log)
  unfolding post_attempts
  post_attempts-Posted zero last_err log = none-Posted 0 log _
  post_attempts-Posted (suc n) last_err log = elim (Option-cases (c.bad_url url)) [
    | inr (e, bad) ↦ rw (post_attempts, bad) (none-Posted (suc n) log _)
    | inl good ↦ elim (scan_status-cases (c.send log (post log))) [
      | inl (status, e, s) ↦ rw (post_attempts, good, e) (one-Posted n log status s)
      | inr (x, e) ↦
          rw (post_attempts, good, e)
            (again-Posted n log _ (post_attempts-Posted n x (post log ∷ log)))
    ]
  ]

abbrev pub projects_path : String
projects_path = "/data/api/v1/scan/projects"

abbrev pub config_path : String
config_path = "/data/api/v1/scan/config"

-- The course of one scan.
pub record Scanned (c : Client) (log : Log) (r : Log × ScanResult) : Type 0 where
  pub to_projects : Log
  pub to_config : Log
  pub adds : r.0 ≡ to_config ++ (to_projects ++ log)
  pub few : (length to_projects ≤ 3) × (length to_config ≤ 3)
  pub projects_ask : All (Asks (c.base_url <> projects_path)) to_projects
  pub config_asks : All (Asks (c.base_url <> config_path)) to_config
  pub config_after : to_config ≢ [] → is_success r.1.projects_status ≡ true
  pub good :
      r.1.error ≡ ""
      → (is_success r.1.projects_status ≡ true) × (is_success r.1.config_status ≡ true)

prefixed_ne : (s t : String) → s ≢ "" → s <> t ≢ ""
prefixed_ne String.[] t h e = h refl
prefixed_ne (String.◌∷◌ c s) t h e = TextLemmas.cons≢nil (sym (TextLemmas.cons-append c s t) ∙ e)

module _ (c : Client) where
  after_config-Scanned :
      (log : Log) (projects : ℕ) (sent : Log) (r : Log × Outcome ℕ)
      → is_success projects ≡ true
      → length sent ≤ 3
      → All (Asks (c.base_url <> projects_path)) sent
      → Posted (c.base_url <> config_path) 3 (sent ++ log) r
      → Scanned c log (after_config projects r)
  unfolding after_config
  after_config-Scanned log projects sent (log', done status) s few ask p = record {
    to_projects = sent;
    to_config = p.sent;
    adds = p.adds;
    few = (few, p.few);
    projects_ask = ask;
    config_asks = p.all_ask;
    config_after = λ h. s;
    good = λ h. (s, p.succeeds status refl);
  }
  after_config-Scanned log projects sent (log', failed e) s few ask p = record {
    to_projects = sent;
    to_config = p.sent;
    adds = p.adds;
    few = (few, p.few);
    projects_ask = ask;
    config_asks = p.all_ask;
    config_after = λ h. s;
    good = λ h. absurd (prefixed_ne "scan/config: " e (λ p. cc) h);
  }

  after_projects-Scanned :
      (log : Log) (r : Log × Outcome ℕ)
      → Posted (c.base_url <> projects_path) 3 log r
      → Scanned c log (after_projects c r)
  unfolding after_projects post_scan
  after_projects-Scanned log (log', done status) p =
      after_config-Scanned log status p.sent (post_scan c config_path log') (p.succeeds status refl)
        p.few p.all_ask
        (rw p.adds (post_attempts-Posted c (c.base_url <> config_path) 3 "" (p.sent ++ log)))
  after_projects-Scanned log (log', failed e) p = record {
    to_projects = p.sent;
    to_config = [];
    adds = p.adds;
    few = (p.few, omega arith);
    projects_ask = p.all_ask;
    config_asks = tt;
    config_after = λ h. absurd (h refl);
    good = λ h. absurd (prefixed_ne "scan/projects: " e (λ p. cc) h);
  }

  -- Whatever the gateway answers, a scan sends at most three requests to scan the projects and then at
  -- most three to scan the configuration, and these only after a success status for the projects; and a
  -- result without an error has a success status for both.
  pub trigger_scan-Scanned : (log : Log) → Scanned c log (trigger_scan c log)
  unfolding trigger_scan post_scan
  trigger_scan-Scanned log =
      after_projects-Scanned log _ (post_attempts-Posted c (c.base_url <> projects_path) 3 "" log)

contains_text-cons :
    (c : Char) (s sub : String)
    → starts_with (String.◌∷◌ c s) sub ≡ true
    → contains_text (String.◌∷◌ c s) sub ≡ true
unfolding contains_text
contains_text-cons c s sub h = rw h refl

contains_text-append :
    (c : Char) (s t : String) → contains_text (String.◌∷◌ c s <> t) (String.◌∷◌ c s) ≡ true
contains_text-append c s t =
    let joined = TextLemmas.cons-append c s t in
    rw joined (
      contains_text-cons c (s <> t) (String.◌∷◌ c s)
        (rw (← joined) (starts_with-append (String.◌∷◌ c s) t)))

contains_error : (e : String) → contains_text ("error: " <> e) "error" ≡ true
contains_error e =
    ap (λ s. contains_text s "error") (TextLemmas.append_assoc "error" ": " e)
    ∙ contains_text-append _ "rror" (": " <> e)

-- The text of a result with an error contains "error".
pub contains_text-scan_text :
    (r : ScanResult) → contains_text (scan_text r) "error" ≡ false → r.error ≡ ""
unfolding scan_text
contains_text-scan_text r h = ground (arith, h, contains_error r.error)
