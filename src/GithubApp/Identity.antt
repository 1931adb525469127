-- ===== src/GithubApp/Identity.antt =====
-- internal/githubapp/githubapp.go: `FetchAppIdentity`, `identityToken`, `loadPrivateKey` and `New`.
-- The parts of go-github, ghinstallation and the HTTP client that they call are a parameter.
use gh_token_broker.Base.{
  ℕ, not, List, [], ◌∷◌, ◌++◌, Str, codes, if◌then◌else◌, eqb, is_empty, Outcome, ok, err, ◌>>=◌,
  ◌>>◌, reject, wrap,
}
use gh_token_broker.Config.Types.{GithubAppConfig}
use gh_token_broker.GithubApp.Client.{Log, GitHub, HttpResponse, MintError, mint_installation_token}

pub record AppIdentity : Type 0 where
  pub slug : Str
  pub bot_id : ℕ
  pub name : Str
  pub email : Str

pub record AppApi (gh : GitHub) : Type 0 where
  -- `c.apps.Apps.Get`, of which the slug is read
  pub get_app : Outcome gh.Failure Str
  -- `c.apps.Apps.ListInstallations`, of which the ids are read
  pub list_installations : Outcome gh.Failure (List ℕ)
  -- `c.publicClient.Do` on the URL with the bearer token
  pub get_user : Str → Str → Outcome gh.Failure (HttpResponse gh.Body)
  pub decode_user : gh.Body → Outcome gh.Failure ℕ
  -- `%d`
  pub decimal : ℕ → Str

pub data IdentityError (Failure : Type 0) : Type 0 where
  no_app no_list no_user bad_user : Failure → IdentityError Failure
  no_installations : IdentityError Failure
  no_token : MintError Failure → IdentityError Failure
  user_status : ℕ → IdentityError Failure

abbrev pub default_base_url : Str
default_base_url = codes "https://api.github.com"

module _ (gh : GitHub) (api : AppApi gh) where
  open api use {get_app, list_installations, get_user, decode_user, decimal}

  -- The first installation mints a token that may only read metadata.
  abbrev pub token_of : List ℕ → Log → Log × Outcome (IdentityError gh.Failure) Str
  token_of [] log = (log, err no_installations)
  token_of (id ∷ rest) log =
      let (after, minted) =
        mint_installation_token gh id ((codes "metadata", codes "read") ∷ []) log in
      (after, wrap no_token minted >>= λ t. ok t.token)

  abbrev pub on_list :
      Outcome gh.Failure (List ℕ) → Log → Log × Outcome (IdentityError gh.Failure) Str
  on_list (err e) log = (log, err (no_list e))
  on_list (ok ids) log = token_of ids log

  unfoldable pub identity_token : Log → Log × Outcome (IdentityError gh.Failure) Str
  identity_token log = on_list list_installations log

  abbrev pub identity_of : Str → ℕ → AppIdentity
  identity_of slug id = record {
    slug = slug;
    bot_id = id;
    name = slug ++ codes "[bot]";
    email = decimal id ++ (codes "+" ++ (slug ++ codes "[bot]@users.noreply.github.com"));
  }

  -- What follows the token.
  unfoldable pub fetch_bot : Str → Str → Outcome (IdentityError gh.Failure) AppIdentity
  fetch_bot slug token = do
    resp ←
        wrap no_user
          (get_user (default_base_url ++ (codes "/users/" ++ (slug ++ codes "%5Bbot%5D"))) token)
    reject (not (eqb resp.status 200)) (user_status resp.status)
    id ← wrap bad_user (decode_user resp.body)
    ok (identity_of slug id)

  abbrev pub on_app_slug :
      Outcome gh.Failure Str → Log → Log × Outcome (IdentityError gh.Failure) AppIdentity
  on_app_slug (err e) log = (log, err (no_app e))
  on_app_slug (ok slug) log =
      let (after, token) = identity_token log in (after, token >>= fetch_bot slug)

  -- The identity that a success returns is the one that the client keeps.
  unfoldable pub fetch_app_identity : Log → Log × Outcome (IdentityError gh.Failure) AppIdentity
  fetch_app_identity log = on_app_slug get_app log

pub data KeyError (Failure : Type 0) : Type 0 where
  unreadable no_transport no_client : Failure → KeyError Failure
  empty_env : Str → KeyError Failure
  no_source : KeyError Failure

-- Files, the environment and the constructors of the two libraries.
pub record Machine : Type 1 where
  pub Failure : Type 0
  pub read_file : Str → Outcome Failure Str
  pub getenv : Str → Str
  pub new_apps_transport : ℕ → Str → Outcome Failure (Unit {0})
  pub new_github_client : Outcome Failure (Unit {0})

module _ (m : Machine) where
  unfoldable pub load_private_key : GithubAppConfig → Outcome (KeyError m.Failure) Str
  load_private_key cfg =
      if not (is_empty cfg.private_key_path)
      then wrap unreadable (m.read_file cfg.private_key_path)
      else if not (is_empty cfg.private_key_env)
      then if is_empty (m.getenv cfg.private_key_env)
        then err (empty_env cfg.private_key_env)
        else ok (m.getenv cfg.private_key_env)
      else err no_source

  -- The id and key that the client signs with.
  unfoldable pub new_client : GithubAppConfig → Outcome (KeyError m.Failure) (ℕ × Str)
  new_client cfg = do
    pem ← load_private_key cfg
    wrap no_transport (m.new_apps_transport cfg.app_id pem)
    wrap no_client m.new_github_client
    ok (cfg.app_id, pem)
