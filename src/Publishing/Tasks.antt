-- ===== src/Publishing/Tasks.antt =====
-- galaxy_ng/app/tasks/publishing.py and promotion.py. A task is followed by the calls of pulp that it
-- makes, in their order; behind an exception there are no more calls.
use galaxy_ng.Prelude.{
  ℕ, ◌==◌, Text, Bool, true, false, List, [], ◌∷◌, ◌++◌, any, Option, none, some, if◌then◌else◌,
}

-- A call of pulp at once, or a task that is dispatched (`move_later`, `approve_later`, `add_later`).
pub data TaskCall : Type 0 where
  add_and_remove : ℕ → List ℕ → TaskCall
  sign : ℕ → List ℕ → ℕ → TaskCall
  move_later : List ℕ → ℕ → List ℕ → TaskCall
  approve_later : ℕ → ℕ → Option ℕ → TaskCall
  add_later : ℕ → List ℕ → TaskCall
  general_create : TaskCall
  log_upload : Text → Text → Text → Text → TaskCall

-- The calls of a task, and whether it ends without an exception.
pub record TaskRun : Type 0 where
  pub calls : List TaskCall
  pub succeeds : Bool

pub record CollectionVersion : Type 0 where
  pub pk : ℕ
  pub namespace : Text
  pub name : Text
  pub version : Text

-- The rows and settings that the tasks read. `metadata_of` is none for a namespace that is not there,
-- and else its last created metadata; `is_accepted` says whether general_create takes the archive, and
-- `created` are the versions that it makes of it.
pub record TaskSite : Type 0 where
  pub repositories : List ℕ
  pub staging : List ℕ
  pub approved : List ℕ
  pub signing_service : Option ℕ
  pub auto_sign : Bool
  pub api_access_log : Bool
  pub metadata_of : Text → Option (Option ℕ)
  pub is_accepted : Bool
  pub created : List CollectionVersion

abbrev pub in_ids : ℕ → List ℕ → Bool
in_ids i = any (λ j. j == i)

abbrev pub stopped : TaskRun
stopped = record { calls = []; succeeds = false }

abbrev pub finished : List TaskCall → TaskRun
finished cs = record { calls = cs; succeeds = true }

infixr 5 ◌then_run◌
abbrev pub ◌then_run◌ : List TaskCall → TaskRun → TaskRun
cs then_run r = record r { calls = cs ++ r.calls }

abbrev pub units : ℕ → Option ℕ → List ℕ
units cv none = cv ∷ []
units cv (some ns) = cv ∷ ns ∷ []

-- Only what comes from a staging repository moves on.
abbrev pub promoted : Bool → TaskSite → ℕ → ℕ → List TaskCall
promoted true site src cv = move_later (cv ∷ []) src site.approved ∷ []
promoted false site src cv = []

abbrev pub signed_and_promoted : Bool → Option ℕ → TaskSite → ℕ → ℕ → TaskRun
signed_and_promoted false service site src cv =
    finished (promoted (in_ids src site.staging) site src cv)
signed_and_promoted true none site src cv = stopped
signed_and_promoted true (some service) site src cv =
    finished (sign src (cv ∷ []) service ∷ promoted (in_ids src site.staging) site src cv)

unfoldable pub auto_approve : TaskSite → ℕ → ℕ → Option ℕ → TaskRun
auto_approve site src cv ns =
    if in_ids src site.repositories
    then (add_and_remove src (units cv ns) ∷ [])
      then_run signed_and_promoted site.auto_sign site.signing_service site src cv
    else stopped

abbrev pub logged_upload : Bool → Text → CollectionVersion → List TaskCall
logged_upload true username v = log_upload username v.namespace v.name v.version ∷ []
logged_upload false username v = []

-- `_upload_collection`: the repository must be there, and pulp's general_create must take the archive.
abbrev pub uploaded : TaskSite → ℕ → TaskRun → TaskRun
uploaded site repo r =
    if in_ids repo site.repositories
    then (general_create ∷ []) then_run (if site.is_accepted then r else stopped)
    else stopped

abbrev pub call_auto_approve_task : ℕ → ℕ → Option ℕ → TaskCall
call_auto_approve_task cv repo ns = approve_later repo cv ns

-- One version of an upload, whose namespace must be there.
abbrev pub for_version :
    (ℕ → Option ℕ → TaskCall)
    → TaskSite
    → Text
    → CollectionVersion
    → Option (Option ℕ)
    → TaskRun
    → TaskRun
for_version task site username v none rest = stopped
for_version task site username v (some metadata) rest =
    (task v.pk metadata ∷ logged_upload site.api_access_log username v) then_run rest

unfoldable pub for_versions :
    (ℕ → Option ℕ → TaskCall) → TaskSite → Text → List CollectionVersion → TaskRun
for_versions task site username [] = finished []
for_versions task site username (v ∷ vs) =
    for_version task site username v (site.metadata_of v.namespace)
      (for_versions task site username vs)

unfoldable pub import_to_staging : TaskSite → Text → ℕ → TaskRun
unfolding for_versions
import_to_staging site username repo =
    uploaded site repo
      (for_versions (λ cv metadata. add_later repo (units cv metadata)) site username site.created)

unfoldable pub import_and_auto_approve : TaskSite → Text → ℕ → TaskRun
unfolding for_versions
import_and_auto_approve site username repo = uploaded site repo (
    for_versions (λ cv metadata. call_auto_approve_task cv repo metadata) site username
      site.created)

-- `call_move_content_task`
abbrev pub call_move_content_task : ℕ → ℕ → ℕ → TaskCall
call_move_content_task cv source dest = move_later (cv ∷ []) source (dest ∷ [])

-- The calls of the approval tasks that were dispatched, one task after the other.
abbrev pub approval_calls : TaskSite → TaskCall → List TaskCall
approval_calls site (approve_later repo cv ns) = (auto_approve site repo cv ns).calls
approval_calls site (add_and_remove r us) = []
approval_calls site (sign r us s) = []
approval_calls site (move_later us s ds) = []
approval_calls site (add_later r us) = []
approval_calls site general_create = []
approval_calls site (log_upload u n m v) = []

unfoldable pub run_approvals : TaskSite → List TaskCall → List TaskCall
run_approvals site [] = []
run_approvals site (c ∷ cs) = approval_calls site c ++ run_approvals site cs
