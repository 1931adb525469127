-- ===== src/Lib.antt =====
-- gh-token-broker exchanges the OIDC token of a CI job for a GitHub App installation token that is
-- limited to what configured policies grant. This library models the path of a token request
-- through the broker and what the request can lead to.
--
-- The parts, and how they interact:
--   - internal/perm (perm.go, catalog_gen.go) is the lattice of permission levels: Perm/Catalog holds
--     the generated `Catalog`, Perm/Levels the functions `ValidKey`, `ValidLevel`, `ValidKeyLevel`,
--     `LevelOrd` and `levelName`, and Perm/Scope `Normalize`, `Intersect`, `Satisfies` and `Gaps`.
--     Perm/Rank views a permission map as a function from keys to levels; Perm/Intersect,
--     Perm/Covers, Perm/Canonical and Perm/Table prove the operations against this view.
--   - internal/resource (resource.go) reads resource identifiers: Resource/Pattern holds the regular
--     expressions, Resource/Parse `Parse`, `ParseAll` and the accessors. Resource/Valid and
--     Resource/Target describe what they accept, Resource/Select which repositories they name.
--   - internal/policy (engine.go) builds the engine and decides. Policy/Ast holds the syntax tree of a
--     condition, Policy/Reads the matchers on it, Policy/Condition/Anchored `constrains` with its
--     bounds and `callerAnchored`, Policy/Condition/Check `checkCondition` and `conditionWarnings`,
--     and Policy/Build `compile` and `New`. Policy/Condition/Semantics says what the meaning of the
--     CEL operators is taken to be. From there, Condition/Constrains and Condition/Operands to
--     Condition/Pinned lead to what pins the caller, and Condition/Places to Condition/Literals to
--     what writes out the resource; Condition/Evaluator is an evaluator that has this meaning.
--     Policy/Engine holds `Evaluate` with its two loops, `mergePermissions`, `coversPermissions`,
--     `checkListCaps` and `evalBool`. Policy/Spec says without loops when a request is covered;
--     Policy/Merge, Policy/Policies, Policy/Resources and Policy/Evaluate lead from the loops to it.
--     Policy/Built is about the engine that `New` builds, and Policy/Promise about the configuration
--     behind an allowed request.
--   - internal/githubapp (githubapp.go) talks to GitHub: GithubApp/Client holds `Mint`, the lookups of
--     installations and both token requests, GithubApp/Lookups how an installation is found and
--     GithubApp/Mint what is sent. GithubApp/Manifest holds `ValidateAppPermissions`,
--     GithubApp/Identity `FetchAppIdentity`, `loadPrivateKey` and `New`.
--   - internal/config (config.go): Config/Types holds the configuration, Config/Claims the claims of
--     the GitHub preset, Config/Urls `parseIssuerURL`, Config/Defaults `applyDefaults`, Config/Issuers
--     `validateIssuer`, Config/Validate `validate` and `checkPermissions`, Config/Load `LoadFromBytes`
--     and `Lint`, Config/Grants `AggregateGrantPermissions`. Config/Valid and Config/Sound describe
--     what is accepted, Config/Lints when there is nothing to warn of.
--   - internal/server (server.go) is the HTTP endpoint that calls all of these: Server/Wire holds its
--     data and the audit events of internal/audit/audit.go, Server/Handler `handleToken`, Server/Scope
--     `decodeScope`, `encodeScope` and `scopeEqual`, Server/Fields the string functions that these
--     use. Server/RoundTrip and Server/Equal are about scopes, Server/Exchange is about the
--     form, Server/Run, Server/Issued and Server/Safety about a whole request.
--   - internal/auth (auth.go, discovery.go) verifies the caller: Auth/Identity holds `Identity`,
--     Auth/Claims the function `identity` with the checks on the claims of a token, Auth/Authenticate
--     `Authenticate`, Auth/Registry `newAuthenticator`, and Auth/Spoken, Auth/Dated and Auth/Admitted
--     what an accepted token has shown. Auth/Discovery holds
--     `discover` and the transport that fetches the keys of an issuer, and Auth/Throttle what the
--     transport lets through over a sequence of requests, and Auth/Progress that it does not stop.
--   - cmd/gh-token-broker (main.go) puts the parts together: Startup holds `run` up to the server that
--     listens, Startup/Loaded what its configuration is known to be, and Startup/Ready what holds of a
--     broker that has started.
--   - cmd/gen-schema (main.go) writes the JSON schema of the configuration: GenSchema holds
--     `permissionsSchema`, the schema of a grant, and GenSchema/Accepts compares it with
--     `checkPermissions`. The meaning of its keywords is that of the JSON Schema standard.
--   - Base holds what all parts share: Boolean tests, byte strings, maps, sorting and error results.
--     The modules named Tests run the code on small inputs.
--
-- How the program is modelled:
--   - A Go string is the list of its bytes. A Go map is the list of its entries in the order in which
--     `range` visits them; a theorem about every list without a repeated key holds for every order.
--   - An `int` that only counts is a natural number; `maxRepositories` is not negative. A point in time
--     is a number of nanoseconds since 1970, or, for the expiry of a GitHub token, since an origin
--     before every time that Go decodes; the saturating and wrapping arithmetic on durations is written out.
--   - A float64 that comes from JSON is finite: a sign, a whole part and whether there is more.
--   - A function that may fail returns an `Outcome`. The message of an error is a constructor with the
--     values that it prints. A panic is a value of its own.
--   - `Mint` and the handler pass on a log of the calls to GitHub, in order.
--   - Every loop is a recursion over the list that it ranges over; no fuel is needed anywhere.
--
--   - A number of the configuration is natural: the schema, which is checked before the document is
--     decoded, admits no negative one. A node of a syntax tree is told from its siblings by its
--     position instead of its id.
--
-- Parameters, of code that is not part of the repository: the CEL evaluator (`Cel`) and compiler
-- (`CelEnv`), of which the theorems on conditions assume the documented meaning of the operators
-- (`Semantics`) and that a true program comes from a true expression (`IsFaithful`); the JOSE and OIDC
-- libraries (`Oidc`), the URL parser and the round tripper under the transport, of which nothing is
-- assumed; the YAML, JSON and schema libraries (`Documents`), net/url (`UrlLib`), files and the
-- environment (`Machine`), of which nothing is assumed either; and GitHub with the HTTP clients and the
-- JSON decoder (`GitHub`, `AppApi`), of which the theorems on `Mint` assume only that the permissions
-- in an answer are a map. The handler takes the authenticator as an interface, like the program. The
-- parsed media type and form come from Go's HTTP library.
--
-- Not modelled: the lines of the ordinary logger and the text of an audit line; the building of HTTP
-- requests, which is taken to succeed, and their headers; the snippets of response bodies in error
-- messages; the metadata and health endpoints; flags, signals and the HTTP server under
-- cmd/gh-token-broker; the rest of the generator cmd/gen-schema, which reflects over the configuration's types by a
-- library, moves parts of the result into definitions and writes the file.
pub mod Config
pub mod Base
pub mod Perm
pub mod Resource
pub mod Policy
pub mod GithubApp
pub mod Auth
pub mod Server
pub mod Startup
pub mod GenSchema
