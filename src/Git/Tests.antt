-- ===== src/Git/Tests.antt =====
-- Runs of the git client on a machine that keeps a URL and a key, and its theorems at concrete data.
use stoker_operator.Prelude.{
  ℕ, String, Bool, true, false, Option, none, some, List, [], ◌∷◌, ◌≡◌, refl, ◌==◌, string_eq,
  if◌then◌else◌,
}
use stoker_operator.Prelude.Text.{cut_prefix}
use stoker_operator.Prelude.Outcome.{Outcome, done}
use stoker_operator.Git.Run.{Done, ok}
use stoker_operator.Git.Native.{Host, inject_token_into_url, clone_or_fetch, configured}
use stoker_operator.Git.Native.Laws.{
  LeavesOrigin, fetches, checks_out, parses, IsGit, clone_or_fetch-origin,
}
use stoker_operator.Git.Native.Key.{IsDisk, clone_or_fetch-key}

record Machine : Type 0 where
  url : Option String
  key : Bool

answer : String → (String × Option String)
answer text = (text, none)

-- A clone stores the URL that it is given, and set-url the new one.
machine_exec : List String → Machine → (String × Option String) × Machine
machine_exec (a ∷ b ∷ c ∷ u ∷ []) m =
    (answer "", if a == "remote" then record m { url = some u } else m)
machine_exec (a ∷ b ∷ c ∷ d ∷ u ∷ p ∷ []) m = (answer "", record m { url = some u })
machine_exec (a ∷ b ∷ []) m = (answer "4f2a\n", m)
machine_exec args m = (answer "", m)

machine_write : String → String → ℕ → Machine → Outcome Done × Machine
machine_write file text mode m =
    (done ok, if file == "/tmp/stoker-ssh-key" then record m { key = true } else m)

machine_remove : String → Machine → Machine
machine_remove file m = if file == "/tmp/stoker-ssh-key" then record m { key = false } else m

abbrev machine : String → Host Machine
unfolding machine_exec machine_write machine_remove answer
machine variable = record {
  getenv = λ name. if name == variable then "/secrets/it" else "";
  read_file = λ file m. done "s3cret\n";
  write_file = machine_write;
  remove = machine_remove;
  stat = λ path m. false;
  exec = λ args dir env m. machine_exec args m;
  redact = λ text. text;
  is_hash = λ ref. false;
}

abbrev fresh : Machine
fresh = record { url = none; key = false }

abbrev repo : String
repo = "https://git.example/a.git"

injected : inject_token_into_url repo "t" ≡ "https://x-access-token:t@git.example/a.git"
unfolding inject_token_into_url cut_prefix
injected = refl

machine-LeavesOrigin :
    (args env : List String) (path : String) (m : Machine)
    → LeavesOrigin args
    → ((machine "GIT_TOKEN_FILE").exec args path env m).1.url ≡ m.url
unfolding machine string_eq
machine-LeavesOrigin _ env path m (fetches url ref) = refl
machine-LeavesOrigin _ env path m checks_out = refl
machine-LeavesOrigin _ env path m parses = refl

machine-IsGit : IsGit (machine "GIT_TOKEN_FILE") (λ path m. m.url)
unfolding machine string_eq
machine-IsGit = record {
  sets = λ url path env s quiet. refl;
  leaves = λ path args env s l. machine-LeavesOrigin args env path s l;
  removes = λ path s. (refl, refl);
}

clone_or_fetch-origin_example :
    (clone_or_fetch (machine "GIT_TOKEN_FILE") repo "main" "/repo" fresh).1.url ≡ some repo
unfolding clone_or_fetch machine
clone_or_fetch-origin_example =
    clone_or_fetch-origin (machine "GIT_TOKEN_FILE") (λ path m. m.url) machine-IsGit repo "main"
      "/repo" fresh _ (record { commit = "4f2a"; ref = "main" }) refl

machine-IsDisk : IsDisk (machine "GIT_SSH_KEY_FILE") (λ m. m.key)
unfolding machine string_eq
machine-IsDisk = record { removes = λ s. refl; stays = λ s. refl }

clone_or_fetch-key_example :
    (clone_or_fetch (machine "GIT_SSH_KEY_FILE") repo "main" "/repo" fresh).1.key ≡ false
unfolding configured machine string_eq
clone_or_fetch-key_example =
    clone_or_fetch-key (machine "GIT_SSH_KEY_FILE") (λ m. m.key) machine-IsDisk repo "main" "/repo"
      fresh _ "s3cret\n" ok refl refl refl
