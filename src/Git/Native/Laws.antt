-- ===== src/Git/Native/Laws.antt =====
-- Which URL a clone or a fetch leaves in the repository's configuration, and what becomes of the key.
use stoker_operator.Prelude.{
  String, Option, none, some, List, [], ◌∷◌, ◌≡◌, refl, ap, sym, ◌∙◌, ◌⊎◌, inl, inr, string_eq,
  ◌==◌, if◌then◌else◌, if_cases,
}
use mathlib.Core.Path.{subst}
use stoker_operator.Prelude.Outcome.{Outcome, done}
use stoker_operator.Git.Remote.{GitResult}
use stoker_operator.Git.GoGit.{is_cloned}
use stoker_operator.Git.Run.{
  told, Ensures, Keeps, Ensures-told, Keeps-told, Ensures-bind, Ensures-kept, Keeps-bind, Gives,
  Gives-return, Gives-told, Gives-bind, Ensures-given,
}
use stoker_operator.Git.Native.{
  Host, GitEnv, key_path, wrapper_path, run_git, set_url, native_rev_parse,
  native_fetch_and_checkout, init_and_fetch, clone_branch, native_clone_and_checkout, remove_all,
  with_env, output_of, write_wrapper, ssh_env, token_env, build_git_env, clone_or_fetch,
}

-- Commands that leave the URL of origin as it is, by git's documentation.
pub data LeavesOrigin : List String → Type 0 where
  fetches : (url ref : String) → LeavesOrigin ("fetch" ∷ "--depth=1" ∷ url ∷ ref ∷ [])
  checks_out : LeavesOrigin ("checkout" ∷ "-f" ∷ "FETCH_HEAD" ∷ [])
  parses : LeavesOrigin ("rev-parse" ∷ "HEAD" ∷ [])

-- What the code relies on in git: `origin path s` is the URL of the remote `origin` that the
-- configuration of the repository at `path` holds.
pub record IsGit {ℓ} {S : Type ℓ} (h : Host S) (origin : String → S → Option String) : Type ℓ where
  pub sets :
      (url path : String) (env : List String) (s : S)
      → let r = h.exec ("remote" ∷ "set-url" ∷ "origin" ∷ url ∷ []) path env s in
        r.0.1 ≡ none → origin path r.1 ≡ some url
  pub leaves :
      (path : String) (args : List String) (env : List String) (s : S)
      → LeavesOrigin args
      → origin path (h.exec args path env s).1 ≡ origin path s
  pub removes :
      (path : String) (s : S)
      → (origin path (h.remove key_path s) ≡ origin path s)
        × (origin path (h.remove wrapper_path s) ≡ origin path s)

output_of-quiet {ℓ} :
    {S : Type ℓ} (h : Host S) (o : String × Option String) (a : String)
    → output_of h o ≡ done a
    → o.1 ≡ none
unfolding output_of
output_of-quiet h (out, none) a e = refl
output_of-quiet h (out, some x) a e = cc

-- What a cleanup removes.
Cleans : GitEnv → Type 0
Cleans g = (g.cleanup ≡ []) ⊎ (g.cleanup ≡ key_path ∷ wrapper_path ∷ [])

module _ {ℓ} {S : Type ℓ} (h : Host S) (url : String) where
  ssh_env-Cleans : (key_file : String) → Gives Cleans (ssh_env h url key_file)
  unfolding ssh_env Cleans
  ssh_env-Cleans key_file = Gives-bind Cleans _ _ (λ bytes.
      Gives-bind Cleans (told "writing SSH key to /tmp: " (h.write_file key_path bytes 0o600)) _
        (λ key.
          Gives-bind Cleans (write_wrapper h) _ (λ wrapper. Gives-return S Cleans _ (inr refl))))

  token_env-Cleans : (token_file : String) → Gives Cleans (token_env h url token_file)
  unfolding token_env Cleans
  token_env-Cleans token_file = Gives-bind Cleans _ _ (λ bytes. Gives-return S Cleans _ (inl refl))

  build_git_env-Cleans : Gives Cleans (build_git_env h url)
  unfolding build_git_env Gives Cleans
  build_git_env-Cleans s g t =
      let P = λ (o : Outcome GitEnv × S). o ≡ (done g, t) → Cleans g in
      if_cases P (h.getenv "GIT_SSH_KEY_FILE" == "") _ _
        (λ no_key.
          if_cases P (h.getenv "GIT_TOKEN_FILE" == "") _ _
            (λ no_token. Gives-return S Cleans _ (inl refl) _ g t)
            (λ token. token_env-Cleans _ _ g t))
        (λ key. ssh_env-Cleans _ _ g t)

module _ {ℓ} {S : Type ℓ} (h : Host S) (origin : String → S → Option String) (git : IsGit h origin)
    (url path : String) (env : List String) where
  abbrev Holds : S → Type 0
  Holds s = origin path s ≡ some url

  run_git-Keeps : (args : List String) → LeavesOrigin args → Keeps Holds (run_git h args path env)
  unfolding run_git Keeps
  run_git-Keeps args l s a t q e =
      ap (λ (x : Outcome String × S). origin path x.1) (sym e) ∙ git.leaves path args env s l ∙ q

  set_url-Ensures : Ensures Holds (set_url h url path env)
  unfolding set_url run_git Ensures
  set_url-Ensures =
      let args = "remote" ∷ "set-url" ∷ "origin" ∷ url ∷ [] in
      Ensures-told Holds "git remote set-url: " (run_git h args path env) (λ s a t e.
        let r = h.exec args path env s in
        let quiet = output_of-quiet h r.0 a (ap (λ (x : Outcome String × S). x.0) e) in
        ap (λ (x : Outcome String × S). origin path x.1) (sym e) ∙ git.sets url path env s quiet)

  native_rev_parse-Keeps : (ref : String) → Keeps Holds (native_rev_parse h ref path env)
  unfolding native_rev_parse Keeps
  native_rev_parse-Keeps ref =
      let m = run_git h ("rev-parse" ∷ "HEAD" ∷ []) path env in
      Keeps-bind Holds (told "git rev-parse HEAD: " m) _
        (Keeps-told Holds "git rev-parse HEAD: " m (run_git-Keeps _ parses))
        (λ commit s a t q e. ap (λ (x : Outcome GitResult × S). origin path x.1) (sym e) ∙ q)

  native_fetch-Ensures :
      (auth_url ref : String)
      → Ensures Holds (native_fetch_and_checkout h url auth_url ref path env)
  unfolding native_fetch_and_checkout
  native_fetch-Ensures auth_url ref = Ensures-kept Holds _ _ set_url-Ensures (λ a.
      Keeps-bind Holds _ _
        (Keeps-told Holds "git fetch: " _ (run_git-Keeps _ (fetches auth_url ref)))
        (λ b.
          Keeps-bind Holds _ _ (Keeps-told Holds "git checkout: " _ (run_git-Keeps _ checks_out))
            (λ c. native_rev_parse-Keeps ref)))

  init_and_fetch-Ensures :
      (auth_url ref : String) → Ensures Holds (init_and_fetch h url auth_url ref path env)
  unfolding init_and_fetch
  init_and_fetch-Ensures auth_url ref =
      let init = run_git h ("init" ∷ path ∷ []) "" env in
      let add = run_git h ("remote" ∷ "add" ∷ "origin" ∷ url ∷ []) path env in
      Ensures-bind Holds (told "git init: " init) _ (λ a.
        Ensures-bind Holds (told "git remote add: " add) _ (λ b. native_fetch-Ensures auth_url ref))

  clone_branch-Ensures :
      (auth_url ref : String) → Ensures Holds (clone_branch h url auth_url ref path env)
  unfolding clone_branch
  clone_branch-Ensures auth_url ref =
      Ensures-bind {A = String} Holds _ _
        (λ a. Ensures-kept Holds _ _ set_url-Ensures (λ b. native_rev_parse-Keeps ref))

  native_clone-Ensures :
      (auth_url ref : String)
      → Ensures Holds (native_clone_and_checkout h url auth_url ref path env)
  unfolding native_clone_and_checkout
  native_clone-Ensures auth_url ref =
      if_cases (Ensures Holds) (h.is_hash ref) _ _ (λ e. init_and_fetch-Ensures auth_url ref)
        (λ e. clone_branch-Ensures auth_url ref)

  remove_all-Holds : (g : GitEnv) → Cleans g → (s : S) → Holds s → Holds (remove_all h g.cleanup s)
  unfolding Cleans remove_all
  remove_all-Holds g (inl e) s q =
      subst (λ (files : List String). Holds (remove_all h files s)) (sym e) q
  remove_all-Holds g (inr e) s q =
      let key = (git.removes path s).0 in
      let wrapper = (git.removes path (h.remove key_path s)).1 in
      subst (λ (files : List String). Holds (remove_all h files s)) (sym e) (wrapper ∙ key ∙ q)

module _ {ℓ} {S : Type ℓ} (h : Host S) (origin : String → S → Option String) (git : IsGit h origin)
    (url ref path : String) where
  with_env-Ensures :
      (g : GitEnv) → Cleans g → Ensures (λ s. origin path s ≡ some url) (with_env h url ref path g)
  unfolding with_env Ensures
  with_env-Ensures g c s a t e =
      let Q = λ (s : S). origin path s ≡ some url in
      let fetch = native_fetch_and_checkout h url g.auth_url ref path g.env s in
      let clone = native_clone_and_checkout h url g.auth_url ref path g.env s in
      let r = if is_cloned h.stat path s then fetch else clone in
      let ended =
        if_cases (λ (r : Outcome GitResult × S). r.0 ≡ done a → Q r.1) (is_cloned h.stat path s)
          fetch clone
          (λ cloned d.
            native_fetch-Ensures h origin git url path g.env g.auth_url ref s a fetch.1
              (ap (λ o. (o, fetch.1)) d))
          (λ fresh d.
            native_clone-Ensures h origin git url path g.env g.auth_url ref s a clone.1
              (ap (λ o. (o, clone.1)) d)) in
      let q = ended (ap (λ (x : Outcome GitResult × S). x.0) e) in
      ap (λ (x : Outcome GitResult × S). origin path x.1) (sym e)
      ∙ remove_all-Holds h origin git url path g.env g c r.1 q

  -- Where set-url of a path's origin sets its URL, where fetch, checkout and rev-parse leave it, and
  -- where the removal of the key and its wrapper leaves it: a clone or a fetch that succeeds leaves the
  -- URL that it was called with, before any token is put into it, as that of origin, on every way to the
  -- checkout.
  pub clone_or_fetch-origin :
      (s t : S) (r : GitResult)
      → clone_or_fetch h url ref path s ≡ (done r, t)
      → origin path t ≡ some url
  unfolding clone_or_fetch Ensures
  clone_or_fetch-origin s t r e =
      let Q = λ (s : S). origin path s ≡ some url in
      let given = Gives-told Cleans "setting up git env: " (build_git_env h url) in
      Ensures-given Q Cleans _ _ (given (build_git_env-Cleans h url)) with_env-Ensures s r t e
