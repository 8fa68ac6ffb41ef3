-- ===== src/Git/GoGit.antt =====
-- GoGitClient's clone and fetch of internal/git/client.go.
use stoker_operator.Prelude.{
  String, ◌<>◌, Bool, false, List, [], ◌∷◌, ◌==◌, string_eq, if◌then◌else◌,
}
use stoker_operator.Prelude.Text.{join, split_slash}
use stoker_operator.Prelude.Outcome.{Outcome, done, failed, wrapped}
use stoker_operator.Git.Remote.{GitResult}
use stoker_operator.Git.Run.{Done, ok, Run, ◌>>=◌, told}

-- go-git's calls on a repository in the world `S`. A fetch that finds nothing new is an error of
-- go-git's that the code takes for a success: `fetch` is done then too. A hash is its text, which
-- `new_hash` writes in lower case.
pub record Repository {ℓ} (S : Type ℓ) : Type ℓ where
  pub stat : List String → S → Bool
  pub plain_clone : String → String → Run S Done
  pub plain_open : String → Run S Done
  pub remote_urls : S → Outcome (List String)
  pub delete_remote : Run S Done
  pub create_remote : String → Run S Done
  pub fetch : Run S Done
  pub worktree : Run S Done
  pub tag : String → S → Outcome String
  pub resolve_revision : String → S → Outcome String
  pub checkout : String → Run S Done
  pub is_hash : String → Bool
  pub new_hash : String → String

unfoldable pub is_cloned {ℓ} : {S : Type ℓ} → (List String → S → Bool) → String → S → Bool
unfolding join split_slash
is_cloned stat path s = stat (join (split_slash path) ".git") s

abbrev or_else : Outcome String → Outcome String → Outcome String
or_else (done hash) later = done hash
or_else (failed e) later = later

abbrev is_first : String → List String → Bool
is_first url [] = false
is_first url (x ∷ xs) = x == url

module _ {ℓ} {S : Type ℓ} (repo : Repository S) where
  unfoldable pub resolve_ref : String → S → Outcome String
  resolve_ref ref s =
      if repo.is_hash ref
      then done (repo.new_hash ref)
      else or_else (repo.tag ref s) (
          or_else (repo.resolve_revision ("refs/tags/" <> ref) s) (
            or_else (repo.resolve_revision ("refs/remotes/origin/" <> ref) s)
              (wrapped ("cannot resolve ref " <> (ref <> ": ")) (repo.resolve_revision ref s))))

  unfoldable pub checkout_ref : String → Run S GitResult
  unfolding resolve_ref
  checkout_ref ref = do
    wt ← told "getting worktree: " repo.worktree
    hash ← λ s. (resolve_ref ref s, s)
    out ← told ("checkout " <> (ref <> ": ")) (repo.checkout hash)
    λ s. (done (record { commit = hash; ref = ref }), s)

  abbrev replace_remote : String → Run S Done
  replace_remote url = do
    gone ← told "deleting origin remote: " repo.delete_remote
    told "creating origin remote: " (repo.create_remote url)

  unfoldable pub ensure_remote_url : String → Run S Done
  unfolding string_eq
  ensure_remote_url url = do
    urls ← λ s. (wrapped "getting origin remote: " (repo.remote_urls s), s)
    if is_first url urls then (λ s. (done ok, s)) else replace_remote url

  unfoldable pub fetch_and_checkout : String → String → String → Run S GitResult
  unfolding checkout_ref ensure_remote_url
  fetch_and_checkout url ref path = do
    opened ← told ("opening repo at " <> (path <> ": ")) (repo.plain_open path)
    same ← ensure_remote_url url
    fetched ← told "git fetch: " repo.fetch
    checkout_ref ref

  unfoldable pub clone_and_checkout : String → String → String → Run S GitResult
  unfolding checkout_ref
  clone_and_checkout url ref path = do
    cloned ← told ("git clone " <> (url <> ": ")) (repo.plain_clone url path)
    checkout_ref ref

  -- CloneOrFetch; the authentication is that of the calls.
  unfoldable pub clone_or_fetch : String → String → String → Run S GitResult
  unfolding is_cloned fetch_and_checkout clone_and_checkout
  clone_or_fetch url ref path s =
      if is_cloned repo.stat path s
      then fetch_and_checkout url ref path s
      else clone_and_checkout url ref path s
