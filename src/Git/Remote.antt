-- ===== src/Git/Remote.antt =====
-- matchRef and LsRemote of internal/git/client.go.
use stoker_operator.Prelude.{
  String, ◌<>◌, Bool, Option, none, some, string_eq, if◌then◌else◌, ◌≡◌, arith, inl, inr,
  Option-cases,
}
use stoker_operator.Prelude.Dict.{Dict, lookup}

-- Result of internal/git/client.go.
pub record GitResult : Type 0 where
  pub commit : String
  pub ref : String

-- `packp.AdvRefs`: hashes by the refs' full names, of annotated tags' commits and of the refs.
pub record AdvRefs : Type 0 where
  pub peeled : Dict String String
  pub references : Dict String String

abbrev or_later : Option String → Option String → Option String
or_later (some h) later = some h
or_later none later = later

-- The exact tag, then the branch.
unfoldable pub candidate_in : Dict String String → String → Option String
candidate_in refs ref =
    or_later (lookup ("refs/tags/" <> ref) refs) (lookup ("refs/heads/" <> ref) refs)

abbrev found_as : String → Option String → Option GitResult
found_as ref (some hash) = some (record { commit = hash; ref = ref })
found_as ref none = none

-- `is_hash` is go-git's `plumbing.IsHash`.
unfoldable pub match_ref : (String → Bool) → AdvRefs → String → Option GitResult
unfolding candidate_in
match_ref is_hash ar ref =
    if is_hash ref
    then some (record { commit = ref; ref = ref })
    else found_as ref (or_later (candidate_in ar.peeled ref) (candidate_in ar.references ref))

-- LsRemote. `advertised` are go-git's calls up to the refs that the remote advertises to that
-- authentication; `none` is an error of any of them.
unfoldable pub ls_remote {ℓ} :
    {Auth : Type ℓ}
    → (String → Bool)
    → (String → Auth → Option AdvRefs)
    → String
    → String
    → Auth
    → Option GitResult
ls_remote is_hash advertised repo ref auth = elim (advertised repo auth) [
  | none ↦ none
  | some ar ↦ match_ref is_hash ar ref
]

found_as-ref :
    (ref : String) (o : Option String) (r : GitResult) → found_as ref o ≡ some r → r.ref ≡ ref
found_as-ref ref none r h = ground arith
found_as-ref ref (some hash) r h = ground arith

pub match_ref-ref :
    (is_hash : String → Bool) (ar : AdvRefs) (ref : String) (r : GitResult)
    → match_ref is_hash ar ref ≡ some r
    → r.ref ≡ ref
unfolding match_ref
match_ref-ref is_hash ar ref r h =
    let hash = or_later (candidate_in ar.peeled ref) (candidate_in ar.references ref) in
    ground (arith, found_as-ref ref hash r)

pub ls_remote-ref {ℓ} :
    {Auth : Type ℓ} (is_hash : String → Bool) (advertised : String → Auth → Option AdvRefs)
    (repo ref : String) (auth : Auth) (r : GitResult)
    → ls_remote is_hash advertised repo ref auth ≡ some r
    → r.ref ≡ ref
unfolding ls_remote
ls_remote-ref is_hash advertised repo ref auth r h = elim (Option-cases (advertised repo auth)) [
  | inl e ↦ ground arith
  | inr (ar, e) ↦ ground (arith, match_ref-ref is_hash ar ref r)
]
