-- ===== src/Resource/Target.antt =====
-- What `ParseAll` guarantees of the list of resources that a request names.
use gh_token_broker.Base.{
  ◌≡◌, ◌≢◌, ◌↔◌, ◌⊎◌, refl, sym, ap, Bool, true, false, ◌||◌, ◌&&◌, List, [], ◌∷◌, arith, Str, ◌==◌,
  ==_iff, ltb, length, All, inl, inr, Bool-cases, ok, >>=-eq-ok, check-cases,
}
use gh_token_broker.Resource.Parse.{
  Resource, kind_repo, kind_org, kind_enterprise, parse, parse_each, check_same, check_all,
  parse_all, raw_strings,
}
use gh_token_broker.Resource.Valid.{IsResource, parse-IsResource, parse-raw, kind-cases}

abbrev pub Agrees : Resource → Resource → Type 0
Agrees first r = (r.kind ≡ first.kind) × (r.owner ≡ first.owner)

-- All resources share one kind and one owner, and only repositories come in lists.
abbrev pub IsTarget : List Resource → Type 0
IsTarget [] = ⊥
IsTarget (first ∷ rest) =
    All IsResource (first ∷ rest)
    × All (Agrees first) rest
    × ((first.kind ≡ kind_repo) ⊎ (rest ≡ []))

parse_each-IsResource :
    (values : List Str) (rs : List Resource) → parse_each values ≡ ok rs → All IsResource rs
unfolding parse_each
parse_each-IsResource [] rs h = let e : rs ≡ [] = cc in rw e tt
parse_each-IsResource (v ∷ values) rs h =
    let (r, er, h') = >>=-eq-ok (parse v) _ h in
    let (rest, erest, fin) = >>=-eq-ok (parse_each values) _ h' in
    let e : rs ≡ r ∷ rest = cc in
    rw e (parse-IsResource v r er, parse_each-IsResource values rest erest)

check_same_iff :
    (first : Resource) (rs : List Resource) → (check_same first rs ≡ ok tt) ↔ All (Agrees first) rs
unfolding check_same
check_same_iff first [] = (λ h. tt, λ h. refl)
check_same_iff first (r ∷ rs) =
    let (to, from) = check_same_iff first rs in
    (
      λ h. (
        (ground (arith, ==_iff r.kind first.kind), ground (arith, ==_iff r.owner first.owner)),
        to (ground arith),
      ),
      λ ((k, o), h). ground (arith, ==_iff r.kind first.kind, ==_iff r.owner first.owner, from h),
    )

abbrev many : Resource → List Resource → Bool
many first rest =
    (first.kind == kind_org || first.kind == kind_enterprise) && ltb 1 (length (first ∷ rest))

many-full :
    (first r : Resource) (rest : List Resource)
    → (first.kind ≡ kind_org) ⊎ (first.kind ≡ kind_enterprise)
    → many first (r ∷ rest) ≡ true
many-full first r rest (inl e) = ground (arith, ==_iff first.kind kind_org)
many-full first r rest (inr e) = ground (arith, ==_iff first.kind kind_enterprise)

not_repo :
    (first : Resource)
    → (first.kind ≡ kind_org) ⊎ (first.kind ≡ kind_enterprise)
    → first.kind ≢ kind_repo
not_repo first (inl e) = λ e'. ground arith
not_repo first (inr e) = λ e'. ground arith

single_iff :
    (first : Resource) (rest : List Resource)
    → IsResource first
    → (many first rest ≡ false) ↔ ((first.kind ≡ kind_repo) ⊎ (rest ≡ []))
single_iff first [] h = (λ e. inr refl, λ e. ground arith)
single_iff first (r ∷ rest) h = elim (kind-cases h) [
  | inl is_repo ↦ (λ e. inl is_repo, λ e. rw is_repo (unfold ◌==◌ in refl))
  | inr other ↦ (λ e. cc (many-full first r rest other), λ e. ground (arith, not_repo first other))
]

check_all_iff :
    (resources rs : List Resource)
    → All IsResource resources
    → (check_all resources ≡ ok rs) ↔ ((rs ≡ resources) × IsTarget resources)
unfolding check_all
check_all_iff [] rs h = (λ e. cc, λ (_, bad). absurd bad)
check_all_iff (first ∷ rest) rs h = elim (check-cases (check_same first rest)) [
  | inl same ↦
      let agree = (check_same_iff first rest).0 same in
      let (to, from) = single_iff first rest h.0 in
      elim (Bool-cases (many first rest)) [
        | inl too_many ↦ rw (same, too_many) (λ e. cc, λ (_, (_, _, one)). cc (from one, too_many))
        | inr one ↦ rw (same, one) (λ e. (cc, (h, agree, to one)), λ (e, _). ap ok (sym e))
      ]
  | inr (er, differ) ↦
      rw differ (λ e. cc, λ (_, (_, agree, _)). cc ((check_same_iff first rest).1 agree, differ))
]

-- Each value parses to the resource at its place, and neither list is longer.
abbrev pub Parses : List Str → List Resource → Type 0
Parses [] [] = Unit
Parses (v ∷ values) (r ∷ rs) = (parse v ≡ ok r) × Parses values rs
Parses values rs = ⊥

parse_each_iff :
    (values : List Str) (rs : List Resource) → (parse_each values ≡ ok rs) ↔ Parses values rs
unfolding parse_each
parse_each_iff [] [] = (λ h. tt, λ h. refl)
parse_each_iff [] (r ∷ rs) = (λ h. cc, λ h. absurd h)
parse_each_iff (v ∷ values) [] = (
  λ h.
      let (r, _, h') = >>=-eq-ok (parse v) _ h in
      let (rest, _, fin) = >>=-eq-ok (parse_each values) _ h' in cc,
  λ h. absurd h,
)
parse_each_iff (v ∷ values) (r ∷ rs) = (
  λ h.
      let (q, first, h') = >>=-eq-ok (parse v) _ h in
      let (rest, others, fin) = >>=-eq-ok (parse_each values) _ h' in
      (cc, (parse_each_iff values rs).0 cc),
  λ (first, others). rw (first, (parse_each_iff values rs).1 others) refl,
)

-- `ParseAll` returns a list of resources exactly if it has one entry for every value, which `Parse`
-- makes of the value at this place, and the list is not empty, shares one kind and one owner, and
-- has more than one entry only for repositories.
pub parse_all_iff :
    (values : List Str) (rs : List Resource)
    → (parse_all values ≡ ok rs) ↔ (Parses values rs × IsTarget rs)
unfolding parse_all
parse_all_iff [] [] = (λ h. cc, λ (_, t). absurd t)
parse_all_iff [] (r ∷ rs) = (λ h. cc, λ (e, _). absurd e)
parse_all_iff (v ∷ values) rs = (
  λ h.
      let (resources, e, h') = >>=-eq-ok (parse_each (v ∷ values)) check_all h in
      let (same, target) =
        (check_all_iff resources rs (parse_each-IsResource (v ∷ values) resources e)).0 h' in
      rw same ((parse_each_iff (v ∷ values) resources).0 e, target),
  λ (parsed, target).
      let e = (parse_each_iff (v ∷ values) rs).1 parsed in
      rw e ((check_all_iff rs rs (parse_each-IsResource (v ∷ values) rs e)).1 (refl, target)),
)

pub parse_each-raw_strings :
    (rs : List Resource) → All IsResource rs → parse_each (raw_strings rs) ≡ ok rs
unfolding parse_each raw_strings
parse_each-raw_strings [] h = refl
parse_each-raw_strings (r ∷ rs) (p, h) = rw (parse-raw p, parse_each-raw_strings rs h)
