-- ===== src/Publishing/Examples.antt =====
-- galaxy_ng/app/tasks/publishing.py and promotion.py: tests, and the theorem at a concrete upload.
use galaxy_ng.Prelude.{◌≡◌, refl, codes, text_eq, true, false, [], ◌∷◌, some, none, if◌then◌else◌}
use galaxy_ng.Publishing.Tasks.{
  add_and_remove, sign, move_later, approve_later, add_later, general_create, log_upload,
  CollectionVersion, TaskSite, auto_approve, for_versions, import_to_staging,
  import_and_auto_approve, run_approvals,
}

publishing_code : Unit {0}
unfolding auto_approve for_versions import_to_staging import_and_auto_approve run_approvals
publishing_code = tt

abbrev first_version : CollectionVersion
first_version = record {
  pk = 11;
  namespace = codes "ours";
  name = codes "web";
  version = codes "1.0.0";
}

-- The repositories 1 (staging), 2 and 3 (approved) and 4; the namespace `ours` with its metadata.
abbrev some_site : TaskSite
some_site = record {
  repositories = 1 ∷ 2 ∷ 3 ∷ 4 ∷ [];
  staging = 1 ∷ [];
  approved = 2 ∷ 3 ∷ [];
  signing_service = some 9;
  auto_sign = true;
  api_access_log = true;
  metadata_of = λ n. if text_eq n (codes "ours") then some (some 20) else none;
  is_accepted = true;
  created = first_version ∷ [];
}

import_test : import_and_auto_approve some_site (codes "ann") 1 ≡ record {
  calls =
      general_create
      ∷ approve_later 1 11 (some 20)
      ∷ log_upload (codes "ann") (codes "ours") (codes "web") (codes "1.0.0")
      ∷ [];
  succeeds = true;
}
unfolding publishing_code
import_test = refl

staging_test :
    import_to_staging (record some_site { api_access_log = false }) (codes "ann") 1
    ≡ record { calls = general_create ∷ add_later 1 (11 ∷ 20 ∷ []) ∷ []; succeeds = true }
unfolding publishing_code
staging_test = refl

approve_test : auto_approve some_site 1 11 (some 20) ≡ record {
  calls =
      add_and_remove 1 (11 ∷ 20 ∷ [])
      ∷ sign 1 (11 ∷ []) 9
      ∷ move_later (11 ∷ []) 1 (2 ∷ 3 ∷ [])
      ∷ [];
  succeeds = true;
}
unfolding publishing_code
approve_test = refl

-- What is in no staging repository stays where it is.
kept_test :
    auto_approve (record some_site { auto_sign = false }) 4 11 none
    ≡ record { calls = add_and_remove 4 (11 ∷ []) ∷ []; succeeds = true }
unfolding publishing_code
kept_test = refl

-- Without the service the version is in its repository when the task fails.
unsigned_test :
    auto_approve (record some_site { signing_service = none }) 1 11 none
    ≡ record { calls = add_and_remove 1 (11 ∷ []) ∷ []; succeeds = false }
unfolding publishing_code
unsigned_test = refl

-- An archive that is refused: the task ends behind the call.
refused_test :
    import_and_auto_approve (record some_site { is_accepted = false }) (codes "ann") 1
    ≡ record { calls = general_create ∷ []; succeeds = false }
unfolding publishing_code
refused_test = refl
