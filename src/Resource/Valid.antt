-- ===== src/Resource/Valid.antt =====
-- Which resources are well formed, and that `Parse` returns exactly those.
use gh_token_broker.Base.{
  ℕ, ◌≤◌, ◌≡◌, ◌≢◌, ◌↔◌, ◌⊎◌, refl, Bool, true, false, some, [], ◌∷◌, ◌++◌, arith, Str, codes, ◌==◌,
  ==_iff, all, is_empty, length, cut, cut-append, cut_of_Without, Without, Without-append, inl, inr,
  Bool-cases, Option-cases, ok, ◌>>=◌, wrap, wrap-eq-ok, >>=-eq-ok,
}
use gh_token_broker.Resource.Pattern.{
  hyphen, is_alnum, is_slug_byte, is_repo_byte, match_owner, match_slug, match_repo, max_owner_len,
  max_repo_len, Words, match_words_iff, Words-Without, all-Without,
}
use gh_token_broker.Resource.Parse.{
  Resource, Error, in_owner, in_name, invalid_repo, invalid_org, invalid_enterprise, invalid_value,
  kind_repo, kind_org, kind_enterprise, require_owner, require_repo_name, require_slug,
  split_owner_name, split_prefix, parse_prefixed, parse_plain, parse, repo_resource, org_resource,
  enterprise_resource, has_part, both_parts,
}

-- A login: words of ASCII letters and digits joined by single hyphens, at most 39 bytes.
abbrev pub IsOwner : Str → Type 0
IsOwner value = Words is_alnum value × (length value ≤ max_owner_len)

-- A repository name: at most 100 bytes of `[A-Za-z0-9._-]`, and neither "." nor "..".
pub record IsRepoName (value : Str) : Type 0 where
  pub nonempty : value ≢ []
  pub bounded : length value ≤ max_repo_len
  pub plain : all is_repo_byte value ≡ true
  pub not_dot : value ≢ codes "."
  pub not_dots : value ≢ codes ".."

abbrev pub IsSlug : Str → Type 0
IsSlug value = Words is_slug_byte value

pub data IsResource : Resource → Type 0 where
  repo :
      (owner name : Str) → IsOwner owner → IsRepoName name → IsResource (repo_resource owner name)
  org : (owner : Str) → IsOwner owner → IsResource (org_resource owner)
  enterprise : (slug : Str) → IsSlug slug → IsResource (enterprise_resource slug)

is_alnum-hyphen : is_alnum hyphen ≡ false
unfolding is_alnum
is_alnum-hyphen = refl

is_slug_byte-hyphen : is_slug_byte hyphen ≡ false
unfolding is_slug_byte
is_slug_byte-hyphen = refl

match_owner_iff : (s : Str) → (match_owner s ≡ true) ↔ Words is_alnum s
unfolding match_owner
match_owner_iff s = match_words_iff is_alnum is_alnum-hyphen s

match_slug_iff : (s : Str) → (match_slug s ≡ true) ↔ Words is_slug_byte s
unfolding match_slug
match_slug_iff s = match_words_iff is_slug_byte is_slug_byte-hyphen s

Words-ne-nil : {x : ℕ → Bool} {s : Str} → Words x s → is_empty s ≡ false
Words-ne-nil (Words.last c h) = refl
Words-ne-nil (Words.grow c h w) = refl
Words-ne-nil (Words.join c h w) = refl

-- `requireOwner` accepts exactly the logins, and returns them unchanged.
pub require_owner-ok : (v o : Str) → require_owner v ≡ ok o → (o ≡ v) × IsOwner v
unfolding require_owner
require_owner-ok v o h = (ground arith, ((match_owner_iff v).0 (ground arith), ground arith))

pub require_owner_of : (v : Str) → IsOwner v → require_owner v ≡ ok v
unfolding require_owner
require_owner_of v (w, le) = ground (arith, Words-ne-nil w, (match_owner_iff v).1 w)

pub require_slug-ok : (v o : Str) → require_slug v ≡ ok o → (o ≡ v) × IsSlug v
unfolding require_slug
require_slug-ok v o h = (ground arith, (match_slug_iff v).0 (ground arith))

pub require_slug_of : (v : Str) → IsSlug v → require_slug v ≡ ok v
unfolding require_slug
require_slug_of v w = ground (arith, Words-ne-nil w, (match_slug_iff v).1 w)

pub require_repo_name-ok : (v n : Str) → require_repo_name v ≡ ok n → (n ≡ v) × IsRepoName v
unfolding require_repo_name match_repo
require_repo_name-ok v n h = (
  ground arith,
  record {
    nonempty = λ e. ground arith;
    bounded = ground arith;
    plain = ground arith;
    not_dot = λ e. ground (arith, ==_iff v (codes "."));
    not_dots = λ e. ground (arith, ==_iff v (codes ".."));
  },
)

pub require_repo_name_of : (v : Str) → IsRepoName v → require_repo_name v ≡ ok v
unfolding require_repo_name match_repo
require_repo_name_of v h =
    ground (arith, h.not_dot, h.not_dots, h.nonempty, ==_iff v (codes "."), ==_iff v (codes ".."))

split_owner_name-ok :
    (remainder o n : Str) → split_owner_name remainder ≡ ok (o, n) → IsOwner o × IsRepoName n
unfolding split_owner_name
split_owner_name-ok remainder o n h = elim (Option-cases (cut b'/' remainder)) [
  | inl missing ↦ ground arith
  | inr ((owner, name), e) ↦ parts_ok owner name (rw e at h)
]
  where
    parts_ok :
        (owner name : Str) → both_parts (some (owner, name)) ≡ ok (o, n) → IsOwner o × IsRepoName n
    parts_ok owner name h =
        let (o', eo, rest) = >>=-eq-ok (wrap in_owner (require_owner owner)) _ h in
        let (n', en, fin) = >>=-eq-ok (wrap in_name (require_repo_name name)) _ rest in
        let (same_o, ho) = require_owner-ok owner o' (wrap-eq-ok in_owner _ eo) in
        let (same_n, hn) = require_repo_name-ok name n' (wrap-eq-ok in_name _ en) in
        let eq_o : o ≡ owner = cc in let eq_n : n ≡ name = cc in (rw eq_o ho, rw eq_n hn)

owner-Without :
    {o : Str} (sep : ℕ) → is_alnum sep ≡ false → sep ≢ hyphen → IsOwner o → Without sep o
owner-Without sep no_sep ne h = Words-Without is_alnum sep no_sep ne h.0

split_owner_name_of :
    (o n : Str) → IsOwner o → IsRepoName n → split_owner_name (o ++ (b'/' ∷ n)) ≡ ok (o, n)
unfolding split_owner_name
split_owner_name_of o n ho hn = rw (
  cut-append b'/' o n (owner-Without b'/' (unfold is_alnum in refl) (ground arith) ho),
  require_owner_of o ho,
  require_repo_name_of n hn,
)

ok-repo :
    (f : Error → Error) (text : Str) (r : Resource)
    → (wrap f (split_owner_name text) >>= λ (o, n). ok (repo_resource o n)) ≡ ok r
    → IsResource r
ok-repo f text r h =
    let ((o, n), e, fin) = >>=-eq-ok (wrap f (split_owner_name text)) _ h in
    let (ho, hn) = split_owner_name-ok text o n (wrap-eq-ok f _ e) in
    let same : r ≡ repo_resource o n = cc in rw same (repo o n ho hn)

parse_prefixed-IsResource :
    (raw prefix remainder : Str) (r : Resource)
    → parse_prefixed raw prefix remainder ≡ ok r
    → IsResource r
unfolding parse_prefixed
parse_prefixed-IsResource raw prefix remainder r h = elim (Bool-cases (prefix == kind_repo)) [
  | inl is_repo ↦ ok-repo (invalid_repo raw) remainder r (rw is_repo at h)
  | inr not_repo ↦ elim (Bool-cases (prefix == kind_org)) [
    | inl is_org ↦
        let (o, e, fin) =
          >>=-eq-ok (wrap (invalid_org raw) (require_owner remainder))
            (λ owner. ok (org_resource owner)) (rw (not_repo, is_org) at h) in
        let (same_o, ho) = require_owner-ok remainder o (wrap-eq-ok (invalid_org raw) _ e) in
        let same : r ≡ org_resource remainder = cc in rw same (org remainder ho)
    | inr not_org ↦ elim (Bool-cases (prefix == kind_enterprise)) [
      | inl is_ent ↦
          let (o, e, fin) =
            >>=-eq-ok (wrap (invalid_enterprise raw) (require_slug remainder))
              (λ owner. ok (enterprise_resource owner)) (rw (not_repo, not_org, is_ent) at h) in
          let (same_o, ho) =
            require_slug-ok remainder o (wrap-eq-ok (invalid_enterprise raw) _ e) in
          let same : r ≡ enterprise_resource remainder = cc in rw same (enterprise remainder ho)
      | inr unknown ↦ ground arith
    ]
  ]
]

parse_plain-IsResource : (raw : Str) (r : Resource) → parse_plain raw ≡ ok r → IsResource r
unfolding parse_plain
parse_plain-IsResource raw r h = elim (Bool-cases (has_part (cut b'/' raw))) [
  | inl slash ↦ ok-repo (invalid_value raw) raw r (rw slash at h)
  | inr none_found ↦ ground arith
]

-- Whatever `Parse` accepts is a well-formed resource: a repository of a valid owner with a valid
-- name, an organization with a valid login or an enterprise with a valid slug, each with its
-- canonical form as `Raw`.
pub parse-IsResource : (raw : Str) (r : Resource) → parse raw ≡ ok r → IsResource r
unfolding parse
parse-IsResource raw r h = elim (Bool-cases (is_empty raw)) [
  | inl empty ↦ ground arith
  | inr full ↦ elim (Option-cases (split_prefix raw)) [
    | inl plain ↦ parse_plain-IsResource raw r (rw (full, plain) at h)
    | inr ((prefix, remainder), e) ↦
        parse_prefixed-IsResource raw prefix remainder r (rw (full, e) at h)
  ]
]

-- For a well-formed resource, `Parse` of its canonical form `Raw` returns that resource.
pub parse-raw : {r : Resource} → IsResource r → parse r.raw ≡ ok r
unfolding parse cut ◌==◌ repo_resource org_resource enterprise_resource
parse-raw (repo o n ho hn) = rw (
  cut-append b'/' o n (owner-Without b'/' (unfold is_alnum in refl) (ground arith) ho),
  require_owner_of o ho,
  require_repo_name_of n hn,
)
parse-raw (org o ho) = rw (require_owner_of o ho)
parse-raw (enterprise slug h) = rw (require_slug_of slug h)

is_empty-append : (o n : Str) → is_empty (o ++ (b'/' ∷ n)) ≡ false
is_empty-append [] n = refl
is_empty-append (c ∷ o) n = refl

-- For a valid owner and a valid repository name, `Parse` reads the unprefixed `owner/name` as the
-- repository `repo:owner/name`.
pub parse-owner_name :
    (o n : Str) → IsOwner o → IsRepoName n → parse (o ++ (b'/' ∷ n)) ≡ ok (repo_resource o n)
unfolding parse
parse-owner_name o n ho hn =
    let colon =
      Without-append b':' o (b'/' ∷ n)
        (owner-Without b':' (unfold is_alnum in refl) (ground arith) ho)
        (ground arith, all-Without is_repo_byte b':' n (unfold is_repo_byte in refl) hn.plain) in
    let slash =
      cut-append b'/' o n (owner-Without b'/' (unfold is_alnum in refl) (ground arith) ho) in
    rw (
      is_empty-append o n,
      cut_of_Without b':' _ colon,
      slash,
      require_owner_of o ho,
      require_repo_name_of n hn,
    )

-- Two well-formed resources with the same canonical form `Raw` are the same resource.
pub raw_injective : {r s : Resource} → IsResource r → IsResource s → r.raw ≡ s.raw → r ≡ s
raw_injective hr hs e = cc (parse-raw hr, parse-raw hs)

pub kind-cases :
    {r : Resource}
    → IsResource r
    → (r.kind ≡ kind_repo) ⊎ ((r.kind ≡ kind_org) ⊎ (r.kind ≡ kind_enterprise))
unfolding repo_resource org_resource enterprise_resource
kind-cases (repo o n ho hn) = inl refl
kind-cases (org o ho) = inr (inl refl)
kind-cases (enterprise slug h) = inr (inr refl)
