-- ===== src/Git/Native/Key.antt =====
-- What becomes of the private key that a clone or a fetch copies to /tmp.
use stoker_operator.Prelude.{
  String, Bool, false, ◌≡◌, refl, ap, ◌∙◌, ◌==◌, string_eq, if◌then◌else◌, [], ◌∷◌,
}
use stoker_operator.Prelude.Outcome.{Outcome, done, failed}
use stoker_operator.Git.GoGit.{is_cloned}
use stoker_operator.Git.Run.{Done, Run, after, ◌>>=◌, told}
use stoker_operator.Git.Native.{
  Host, GitEnv, key_path, wrapper_path, write_wrapper, wrapper_or_clean, ssh_env, build_git_env,
  configured, with_env, remove_all, clone_or_fetch, native_fetch_and_checkout,
  native_clone_and_checkout, host_key_opts, ssh_wrapper,
}

-- `has_key s` tells whether the file /tmp/stoker-ssh-key is there.
pub record IsDisk {ℓ} {S : Type ℓ} (h : Host S) (has_key : S → Bool) : Type ℓ where
  pub removes : (s : S) → has_key (h.remove key_path s) ≡ false
  pub stays : (s : S) → has_key (h.remove wrapper_path s) ≡ has_key s

module _ {ℓ} {S : Type ℓ} (h : Host S) (has_key : S → Bool) (disk : IsDisk h has_key)
    (url ref path : String) where
  cleaned :
      (g : GitEnv) (s : S)
      → g.cleanup ≡ key_path ∷ wrapper_path ∷ []
      → has_key (with_env h url ref path g s).1 ≡ false
  unfolding with_env remove_all
  cleaned g s e =
      let fetch = native_fetch_and_checkout h url g.auth_url ref path g.env s in
      let clone = native_clone_and_checkout h url g.auth_url ref path g.env s in
      let t = (if is_cloned h.stat path s then fetch else clone).1 in
      ap (λ files. has_key (remove_all h files t)) e
      ∙ disk.stays (h.remove key_path t)
      ∙ disk.removes t

  -- With or without the wrapper.
  ends :
      (g : GitEnv) (o : Outcome Done × S)
      → g.cleanup ≡ key_path ∷ wrapper_path ∷ []
      → let made : Run S GitEnv = λ t. after (wrapper_or_clean h o) (λ w s. (done g, s)) in
        has_key ((told "setting up git env: " made >>= with_env h url ref path) o.1).1 ≡ false
  unfolding wrapper_or_clean
  ends g (done d, v) e = cleaned g v e
  ends g (failed x, v) e = disk.removes v

  -- Where a removed key is gone and the removal of the wrapper does not bring it back: with a key file
  -- that is named, that was read, and whose copy in /tmp was written, there is no copy once the call has
  -- ended, whether the wrapper could be written and whatever git's commands answer.
  pub clone_or_fetch-key :
      (s t : S) (bytes : String) (d : Done)
      → (h.getenv "GIT_SSH_KEY_FILE" == "") ≡ false
      → h.read_file (h.getenv "GIT_SSH_KEY_FILE") (configured h s) ≡ done bytes
      → h.write_file key_path bytes 0o600 (configured h s) ≡ (done d, t)
      → has_key (clone_or_fetch h url ref path s).1 ≡ false
  unfolding clone_or_fetch build_git_env ssh_env write_wrapper configured
  clone_or_fetch-key s t bytes d key read written =
      let opts = host_key_opts (h.getenv "GIT_KNOWN_HOSTS_FILE") in
      rw (clone_or_fetch, build_git_env, key, ssh_env, read, written)
        (ends _ (h.write_file wrapper_path (ssh_wrapper opts) 0o700 t) refl)
