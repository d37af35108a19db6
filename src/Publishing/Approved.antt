-- ===== src/Publishing/Approved.antt =====
-- galaxy_ng/app/tasks/publishing.py and promotion.py: which uploads are published, and in which order.
use galaxy_ng.Prelude.{
  ℕ, ◌≡◌, Text, Bool, true, false, not, ◌&&◌, ◌||◌, List, [], ◌∷◌, ◌++◌, all, Option, is_some,
}
use galaxy_ng.Publishing.Tasks.{
  TaskCall, add_and_remove, sign, move_later, approve_later, add_later, general_create, log_upload,
  CollectionVersion, TaskSite, in_ids, call_auto_approve_task,
}

-- What may be moved: from a staging repository only, and signed before if that is wanted. The list
-- holds what was signed so far.
abbrev pub signed_first : TaskSite → List ℕ → List TaskCall → Bool
signed_first site signed [] = true
signed_first site signed (sign repo us service ∷ cs) = signed_first site (us ++ signed) cs
signed_first site signed (move_later us src dests ∷ cs) =
    (not site.auto_sign || all (λ u. in_ids u signed) us)
    && (in_ids src site.staging && signed_first site signed cs)
signed_first site signed (add_and_remove repo us ∷ cs) = signed_first site signed cs
signed_first site signed (approve_later repo cv ns ∷ cs) = signed_first site signed cs
signed_first site signed (add_later repo us ∷ cs) = signed_first site signed cs
signed_first site signed (general_create ∷ cs) = signed_first site signed cs
signed_first site signed (log_upload u n m v ∷ cs) = signed_first site signed cs

abbrev pub is_move : TaskCall → Bool
is_move (move_later us src dests) = true
is_move (sign repo us service) = false
is_move (add_and_remove repo us) = false
is_move (approve_later repo cv ns) = false
is_move (add_later repo us) = false
is_move general_create = false
is_move (log_upload u n m v) = false

-- A service for signatures is there if they are wanted.
abbrev pub can_sign : TaskSite → Bool
can_sign site = not site.auto_sign || is_some site.signing_service

-- The first version that was created has its namespace.
abbrev pub starts_known : TaskSite → List CollectionVersion → Bool
starts_known site [] = false
starts_known site (v ∷ vs) = is_some (site.metadata_of v.namespace)

module _ (site : TaskSite) where
  -- Calls that are in order whatever was signed before, and whatever ordered calls follow.
  abbrev IsOrdered : List TaskCall → Type 0
  IsOrdered a =
      (signed : List ℕ) (rest : List TaskCall)
      → ((more : List ℕ) → signed_first site more rest ≡ true)
      → signed_first site signed (a ++ rest) ≡ true

  module _ (repo : ℕ) (username : Text) where
    -- The approval of a version moves it.
    abbrev is_published : Bool
    is_published = in_ids repo site.repositories && (in_ids repo site.staging && can_sign site)

    abbrev approving : ℕ → Option ℕ → TaskCall
    approving cv metadata = call_auto_approve_task cv repo metadata
