-- ===== src/Access/Laws/Upload.antt =====
-- galaxy_ng/app/access_control/access_policy.py: who may upload a collection, and what may be
-- approved without a signature.
use galaxy_ng.Prelude.{
  ◌≡◌, refl, ◌↔◌, ◌⊎◌, inl, inr, String, str_eq_iff, str_eq_refl, true, not, ◌&&◌, any, all,
  is_some, Option, none, some, if◌then◌else◌, Option-cases, arith,
}
use galaxy_ng.Access.Model.{
  validation_error, Result-cases, returned, raised, namespace, repository, Perms,
  has_model_or_object_permissions, Repo, Site, get_namespace,
}
use galaxy_ng.Access.Conditions.Collections.{repo_at, can_create_collection}
use galaxy_ng.Access.Conditions.Repositories.{
  CopyMove, is_approved, signatures_not_required_for_repo,
}

-- The repository is a staging repository, or it has no pipeline and the user may change it.
abbrev pub AcceptsUpload : Perms → Repo → Type 0
AcceptsUpload u repo =
    (repo.pipeline ≡ some "staging")
    ⊎ ((repo.pipeline ≡ none)
        × (has_model_or_object_permissions u "ansible.modify_ansible_repo_content"
              (repository repo.pk)
            ≡ true))

pub record MayUpload (site : Site) (u : Perms) (name path : String) : Type 0 where
  pub ns : String
  pub repo : Repo
  pub known : get_namespace site name ≡ some ns
  pub granted : has_model_or_object_permissions u "galaxy.upload_to_namespace" (namespace ns) ≡ true
  pub at_path : repo_at site path ≡ returned repo
  pub accepts : AcceptsUpload u repo

-- The condition can_create_collection answers True exactly if the namespace of the file exists,
-- the user may upload to it, the path leads to a repository, and that is a staging repository or
-- one without a pipeline that the user may change.
pub can_create_collection_iff :
    (site : Site) (u : Perms) (name path : String)
    → (can_create_collection site u name path ≡ returned true) ↔ MayUpload site u name path
unfolding can_create_collection
can_create_collection_iff site u name path = (to, from)
  where
    accepted :
        (ns : String) (repo : Repo)
        → get_namespace site name ≡ some ns
        → repo_at site path ≡ returned repo
        → can_create_collection site u name path ≡ returned true
        → (pipeline : Option String) → repo.pipeline ≡ pipeline
        → AcceptsUpload u repo
    accepted ns repo known at_path h none e = inr (e, ground arith)
    accepted ns repo known at_path h (some p) e = inl (ground (arith, str_eq_iff p "staging"))

    to : can_create_collection site u name path ≡ returned true → MayUpload site u name path
    to h = elim (Option-cases (get_namespace site name)) [
      | inl missing ↦ absurd (ground arith)
      | inr (ns, known) ↦ elim (Result-cases (repo_at site path)) [
        | inr (e, failed) ↦ absurd (ground arith)
        | inl (repo, at_path) ↦ record {
          ns = ns;
          repo = repo;
          known = known;
          granted = ground arith;
          at_path = at_path;
          accepts = accepted ns repo known at_path h (repo.pipeline) refl;
        }
      ]
    ]

    from : MayUpload site u name path → can_create_collection site u name path ≡ returned true
    from m = elim m.accepts [
      | inl staging ↦ ground (arith, m.known, m.granted, m.at_path, str_eq_refl "staging")
      | inr (unlabelled, may_change) ↦ ground (arith, m.known, m.granted, m.at_path)
    ]

-- Where signatures are required, a copy or move into an approved repository passes exactly if a
-- signing service is named or every collection version is signed; without an approved repository
-- it passes, and in every other case it is a validation error.
pub signatures_required :
    (site : Site) (request : CopyMove)
    → site.require_signature ≡ true
    → signatures_not_required_for_repo site (some request) ≡ (
        if any is_approved request.destinations
          && not (is_some request.signing_service)
          && not (all (λ cv. cv.1) request.signed_versions)
        then raised validation_error
        else returned true)
unfolding signatures_not_required_for_repo
signatures_required site request h = ground arith
