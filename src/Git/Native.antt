-- ===== src/Git/Native.antt =====
-- NativeGitClient of internal/git/client.go, which runs the git program.
pub mod Laws
pub mod Key
use stoker_operator.Prelude.{
  ℕ, String, ◌<>◌, Bool, true, false, Option, none, some, List, [], ◌∷◌, ◌++◌, ◌==◌, string_eq,
  if◌then◌else◌, starts_with,
}
use stoker_operator.Prelude.Text.{trim_space, cut_prefix}
use stoker_operator.Prelude.Outcome.{Outcome, done, failed, wrapped}
use stoker_operator.Git.Remote.{GitResult}
use stoker_operator.Git.GoGit.{is_cloned}
use stoker_operator.Git.Run.{Done, ok, Run, after, ◌>>=◌, told}

-- What the code calls, on a world `S`: the environment, files by their paths, `exec` of a command
-- (its arguments, directory and added environment) with its output and its error, the replacement of
-- `tokenRe`, and `plumbing.IsHash`. A mode is its nine bits.
pub record Host {ℓ} (S : Type ℓ) : Type ℓ where
  pub getenv : String → String
  pub read_file : String → S → Outcome String
  pub write_file : String → String → ℕ → Run S Done
  pub remove : String → S → S
  pub stat : List String → S → Bool
  pub exec : List String → String → List String → S → (String × Option String) × S
  pub redact : String → String
  pub is_hash : String → Bool

abbrev key_path : String
key_path = "/tmp/stoker-ssh-key"

abbrev wrapper_path : String
wrapper_path = "/tmp/stoker-ssh"

-- What buildGitEnv returns; `cleanup` names the files that its function removes.
pub record GitEnv : Type 0 where
  pub auth_url : String
  pub env : List String
  pub cleanup : List String

abbrev base_env : List String
base_env = "HOME=/tmp" ∷ "GIT_TERMINAL_PROMPT=0" ∷ "GIT_CONFIG_NOSYSTEM=1" ∷ []

unfoldable pub host_key_opts : String → String
unfolding string_eq
host_key_opts known_hosts_file =
    if known_hosts_file == ""
    then "-o StrictHostKeyChecking=no"
    else "-o StrictHostKeyChecking=yes -o UserKnownHostsFile=" <> known_hosts_file

abbrev ssh_line : String → String
ssh_line opts =
    "exec ssh -i "
    <> (key_path <> (" " <> (opts <> " -o BatchMode=yes -o IdentitiesOnly=yes \"$@\"\n")))

unfoldable pub ssh_wrapper : String → String
ssh_wrapper opts =
    "#!/bin/sh\nuid=$(id -u); gid=$(id -g)\n"
    <> ("printf \"agent:x:%d:%d::/tmp:/sbin/nologin\\n\" \"$uid\" \"$gid\" > /tmp/.nss-passwd\n"
        <> ("printf \"agent:x:%d:\\n\" \"$gid\" > /tmp/.nss-group\n"
            <> ("_nss=$(ls /usr/lib/libnss_wrapper.so* 2>/dev/null | head -1)\nif [ -n \"$_nss\" ]; then\n"
                <> ("  NSS_WRAPPER_PASSWD=/tmp/.nss-passwd NSS_WRAPPER_GROUP=/tmp/.nss-group"
                    <> (" LD_PRELOAD=\"$_nss\" \\\n  "
                        <> (ssh_line opts <> ("else\n  " <> (ssh_line opts <> "fi\n"))))))))

unfoldable pub inject_token_into_url : String → String → String
inject_token_into_url repo_url token = elim (cut_prefix "https://" repo_url) [
  | some rest ↦ "https://x-access-token:" <> (token <> ("@" <> rest))
  | none ↦ elim (cut_prefix "http://" repo_url) [
    | some rest ↦ "http://x-access-token:" <> (token <> ("@" <> rest))
    | none ↦ repo_url
  ]
]

module _ {ℓ} {S : Type ℓ} (h : Host S) where
  unfoldable pub wrapper_or_clean : Outcome Done × S → Outcome Done × S
  wrapper_or_clean (done d, t) = (done d, t)
  wrapper_or_clean (failed e, t) = (failed ("writing SSH wrapper: " <> e), h.remove key_path t)

  unfoldable pub write_wrapper : Run S Done
  unfolding host_key_opts ssh_wrapper wrapper_or_clean
  write_wrapper s =
      let opts = host_key_opts (h.getenv "GIT_KNOWN_HOSTS_FILE") in
      wrapper_or_clean (h.write_file wrapper_path (ssh_wrapper opts) 0o700 s)

  abbrev pub read : String → String → Run S String
  read message file s = (wrapped message (h.read_file file s), s)

  unfoldable pub ssh_env : String → String → Run S GitEnv
  unfolding write_wrapper
  ssh_env repo_url key_file = do
    bytes ← read ("reading SSH key " <> (key_file <> ": ")) key_file
    key ← told "writing SSH key to /tmp: " (h.write_file key_path bytes 0o600)
    wrapper ← write_wrapper
    λ s. (
      done (record {
        auth_url = repo_url;
        env = base_env ++ ("GIT_SSH_COMMAND=" <> wrapper_path) ∷ [];
        cleanup = key_path ∷ wrapper_path ∷ [];
      }),
      s,
    )

  unfoldable pub token_env : String → String → Run S GitEnv
  unfolding inject_token_into_url trim_space
  token_env repo_url token_file = do
    bytes ← read ("reading token file " <> (token_file <> ": ")) token_file
    λ s. (
      done (record {
        auth_url = inject_token_into_url repo_url (trim_space bytes);
        env = base_env;
        cleanup = [];
      }),
      s,
    )

  abbrev plain_env : String → Run S GitEnv
  plain_env repo_url s = (done (record { auth_url = repo_url; env = base_env; cleanup = [] }), s)

  -- The file by which git takes every directory for safe; its failure is dropped.
  unfoldable pub configured : S → S
  configured s = (h.write_file "/tmp/.gitconfig" "[safe]\n\tdirectory = *\n" 0o644 s).1

  unfoldable pub build_git_env : String → Run S GitEnv
  unfolding configured ssh_env token_env string_eq
  build_git_env repo_url s =
      let t = configured s in
      let key_file = h.getenv "GIT_SSH_KEY_FILE" in
      let token_file = h.getenv "GIT_TOKEN_FILE" in
      if key_file == ""
      then (if token_file == "" then plain_env repo_url t else token_env repo_url token_file t)
      else ssh_env repo_url key_file t

  unfoldable pub sanitize_output : String → String
  unfolding trim_space
  sanitize_output s = h.redact (trim_space s)

  abbrev or_error : String → String → String
  or_error message e = if message == "" then e else message

  unfoldable pub output_of : String × Option String → Outcome String
  unfolding sanitize_output string_eq
  output_of (out, none) = done (trim_space out)
  output_of (out, some e) = failed (or_error (sanitize_output out) e)

  unfoldable pub run_git : List String → String → List String → Run S String
  unfolding output_of
  run_git args dir env s = let r = h.exec args dir env s in (output_of r.0, r.1)

  unfoldable pub native_rev_parse : String → String → List String → Run S GitResult
  unfolding run_git
  native_rev_parse ref path env = do
    commit ← told "git rev-parse HEAD: " (run_git ("rev-parse" ∷ "HEAD" ∷ []) path env)
    λ s. (done (record { commit = commit; ref = ref }), s)

  unfoldable pub set_url : String → String → List String → Run S String
  unfolding run_git
  set_url url path env =
      let args = "remote" ∷ "set-url" ∷ "origin" ∷ url ∷ [] in
      told "git remote set-url: " (run_git args path env)

  unfoldable pub native_fetch_and_checkout :
      String → String → String → String → List String → Run S GitResult
  unfolding run_git set_url native_rev_parse
  native_fetch_and_checkout clean_url auth_url ref path env = do
    url ← set_url clean_url path env
    let fetch = "fetch" ∷ "--depth=1" ∷ auth_url ∷ ref ∷ []
    fetched ← told "git fetch: " (run_git fetch path env)
    out ← told "git checkout: " (run_git ("checkout" ∷ "-f" ∷ "FETCH_HEAD" ∷ []) path env)
    native_rev_parse ref path env

  unfoldable pub init_and_fetch : String → String → String → String → List String → Run S GitResult
  unfolding run_git native_fetch_and_checkout
  init_and_fetch clean_url auth_url ref path env = do
    made ← told "git init: " (run_git ("init" ∷ path ∷ []) "" env)
    let add = "remote" ∷ "add" ∷ "origin" ∷ clean_url ∷ []
    added ← told "git remote add: " (run_git add path env)
    native_fetch_and_checkout clean_url auth_url ref path env

  unfoldable pub clone_branch : String → String → String → String → List String → Run S GitResult
  unfolding run_git set_url native_rev_parse
  clone_branch clean_url auth_url ref path env = do
    let clone = "clone" ∷ "--depth=1" ∷ "--branch" ∷ ref ∷ auth_url ∷ path ∷ []
    cloned ← told ("git clone --branch " <> (ref <> ": ")) (run_git clone "" env)
    url ← set_url clean_url path env
    native_rev_parse ref path env

  unfoldable pub native_clone_and_checkout :
      String → String → String → String → List String → Run S GitResult
  unfolding init_and_fetch clone_branch
  native_clone_and_checkout clean_url auth_url ref path env =
      if h.is_hash ref
      then init_and_fetch clean_url auth_url ref path env
      else clone_branch clean_url auth_url ref path env

  unfoldable pub remove_all : List String → S → S
  remove_all [] s = s
  remove_all (file ∷ files) s = remove_all files (h.remove file s)

  unfoldable pub with_env : String → String → String → GitEnv → Run S GitResult
  unfolding is_cloned native_fetch_and_checkout native_clone_and_checkout remove_all
  with_env repo_url ref path g s =
      let r =
        if is_cloned h.stat path s
        then native_fetch_and_checkout repo_url g.auth_url ref path g.env s
        else native_clone_and_checkout repo_url g.auth_url ref path g.env s in
      (r.0, remove_all g.cleanup r.1)

  -- CloneOrFetch, without the authentication that it ignores.
  unfoldable pub clone_or_fetch : String → String → String → Run S GitResult
  unfolding build_git_env with_env
  clone_or_fetch repo_url ref path =
      told "setting up git env: " (build_git_env repo_url) >>= with_env repo_url ref path
