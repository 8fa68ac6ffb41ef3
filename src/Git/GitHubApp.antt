-- ===== src/Git/GitHubApp.antt =====
-- internal/git/githubapp.go: the exchange of a GitHub App's key for a token.
use stoker_operator.Prelude.{
  ℕ, ◌+◌, ◌-◌, String, ◌<>◌, Option, none, some, ◌==◌, string_eq, nat_eq, if◌then◌else◌,
}
use stoker_operator.Prelude.Text.{decimal}
use stoker_operator.Prelude.Outcome.{Outcome, done, failed, ◌>>=◌, wrapped}
use stoker_operator.Git.Auth.{InstallationToken}

-- What `x509.ParsePKCS8PrivateKey` finds.
pub data Pkcs8 {ℓ} (Key : Type ℓ) : Type ℓ where
  rsa : Key → Pkcs8 Key
  not_rsa : Pkcs8 Key

pub record PemBlock : Type 0 where
  pub block_type : String
  pub bytes : String

-- `jwt.RegisteredClaims`, in seconds.
pub record Claims : Type 0 where
  pub issued_at : ℕ
  pub expires_at : ℕ
  pub issuer : String

pub record Request : Type 0 where
  pub url : String
  pub authorization : String
  pub accept_header : String

pub record Response : Type 0 where
  pub status_code : ℕ
  pub body : Outcome String

-- What the code calls: PEM, x509, the signing by RS256, HTTP with the client's timeout, and JSON.
pub record Calls {ℓ} (Key : Type ℓ) : Type ℓ where
  pub pem_decode : String → Option PemBlock
  pub parse_pkcs1 : String → Outcome Key
  pub parse_pkcs8 : String → Outcome (Pkcs8 Key)
  pub signed_string : Claims → Key → Outcome String
  pub url_error : String → Option String
  pub send : Request → Outcome Response
  pub unmarshal : String → Outcome InstallationToken

abbrev rsa_only {ℓ} : {Key : Type ℓ} → Pkcs8 Key → Outcome Key
rsa_only (rsa key) = done key
rsa_only not_rsa = failed "PKCS#8 key is not RSA"

module _ {ℓ} {Key : Type ℓ} (c : Calls Key) where
  parse_block : Option PemBlock → Outcome Key
  unfolding string_eq
  parse_block none = failed "no PEM block found"
  parse_block (some block) =
      if block.block_type == "RSA PRIVATE KEY"
      then c.parse_pkcs1 block.bytes
      else if block.block_type == "PRIVATE KEY"
      then c.parse_pkcs8 block.bytes >>= rsa_only
      else failed ("unsupported PEM block type: " <> block.block_type)

  unfoldable pub parse_rsa_private_key : String → Outcome Key
  unfolding parse_block
  parse_rsa_private_key pem = parse_block (c.pem_decode pem)

  -- Issued 60 seconds ago, for a clock that is behind, and valid for 10 minutes.
  unfoldable pub app_claims : ℕ → ℕ → Claims
  unfolding decimal
  app_claims now app_id = record {
    issued_at = now - 60;
    expires_at = now + 600;
    issuer = decimal app_id;
  }

  unfoldable pub api_or_default : String → String
  unfolding string_eq
  api_or_default url = if url == "" then "https://api.github.com" else url

  unfoldable pub token_request : String → ℕ → String → Outcome Request
  unfolding api_or_default decimal
  token_request api_url installation_id jwt =
      let path = "/app/installations/" <> (decimal installation_id <> "/access_tokens") in
      let url = api_or_default api_url <> path in
      elim (c.url_error url) [
        | some e ↦ failed ("creating request: " <> e)
        | none ↦ done (record {
          url = url;
          authorization = "Bearer " <> jwt;
          accept_header = "application/vnd.github+json";
        })
      ]

  unfoldable pub read_token : Response → Outcome InstallationToken
  unfolding nat_eq decimal
  read_token resp = wrapped "reading response: " resp.body >>= λ body.
      if resp.status_code == 201
      then wrapped "parsing response: " (c.unmarshal body)
      else failed ("GitHub API returned " <> (decimal resp.status_code <> (": " <> body)))

  unfoldable pub exchange_git_hub_app_token :
      ℕ → String → ℕ → ℕ → String → Outcome InstallationToken
  unfolding parse_rsa_private_key app_claims token_request read_token
  exchange_git_hub_app_token now pem app_id installation_id api_url = do
    key ← wrapped "parsing PEM key: " (parse_rsa_private_key pem)
    jwt ← wrapped "signing JWT: " (c.signed_string (app_claims now app_id) key)
    request ← token_request api_url installation_id jwt
    response ← wrapped "exchanging token: " (c.send request)
    read_token response
