-- ===== src/Access/Laws/Owners.antt =====
-- galaxy_ng/app/access_control/access_policy.py and galaxy_ng/app/utils/rbac.py: who owns a legacy
-- namespace.
use galaxy_ng.Prelude.{
  ℕ, ◌==◌, ==_iff, ◌≡◌, refl, ap, ◌∙◌, String, Bool, true, false, ◌&&◌, ◌||◌, List, [], ◌∷◌, ◌++◌,
  any, Option, none, some, if◌then◌else◌, Bool-cases, Option-cases, arith, inl, inr,
}
use galaxy_ng.Access.Model.{attribute_error, Result, returned, raised, ◌>>=◌}
use galaxy_ng.Access.Conditions.Repositories.{one_of}
use galaxy_ng.Access.Conditions.Legacy.{
  User, Namespace, LegacyNamespace, LegacyRole, concat, unique_from, get_v3_namespace_owners,
  Endpoint, related_namespace, own_name, is_missing, owner_by_v3, is_namespace_owner,
}

one_of-append : (k : ℕ) (xs ys : List ℕ) → one_of k (xs ++ ys) ≡ (one_of k xs || one_of k ys)
one_of-append k [] ys = refl
one_of-append k (x ∷ xs) ys = ground (arith, one_of-append k xs ys)

seen_before :
    (k x : ℕ) (seen xs : List ℕ)
    → one_of x seen ≡ true
    → (one_of k seen || one_of k xs) ≡ (one_of k seen || one_of k (x ∷ xs))
seen_before k x seen xs e = elim (Bool-cases (x == k)) [
  | inl same ↦ let here : one_of k seen ≡ true = rw (← (==_iff x k).0 same) e in rw here refl
  | inr other ↦ rw other refl
]

-- Dropping repeated owners loses none and adds none.
unique_from-one_of :
    (k : ℕ) (seen xs : List ℕ) → one_of k (unique_from seen xs) ≡ (one_of k seen || one_of k xs)
unique_from-one_of k seen [] = ground arith
unique_from-one_of k seen (x ∷ xs) = elim (Bool-cases (one_of x seen)) [
  | inl e ↦ rw e (unique_from-one_of k seen xs ∙ seen_before k x seen xs e)
  | inr e ↦
      rw e
        (unique_from-one_of k (seen ++ x ∷ []) xs ∙ ground (arith, one_of-append k seen (x ∷ [])))
]

one_of-concat : (k : ℕ) (xss : List (List ℕ)) → one_of k (concat xss) ≡ any (one_of k) xss
one_of-concat k [] = refl
one_of-concat k (xs ∷ xss) =
    one_of-append k xs (concat xss) ∙ ap (λ b. one_of k xs || b) (one_of-concat k xss)

-- A user has a role on the v3 namespace, alone or in a group.
abbrev pub has_role_on : User → Namespace → Bool
has_role_on user ns = any (one_of user.pk) ns.group_members || one_of user.pk ns.users

owners_lem :
    (user : User) (ns : Namespace)
    → one_of user.pk (get_v3_namespace_owners ns) ≡ has_role_on user ns
unfolding get_v3_namespace_owners
owners_lem user ns =
    unique_from-one_of user.pk [] (concat ns.group_members ++ ns.users)
    ∙ one_of-append user.pk (concat ns.group_members) ns.users
    ∙ ap (λ b. b || one_of user.pk ns.users) (one_of-concat user.pk ns.group_members)

-- The answer for a legacy namespace that was found, or for a GitHub user without one.
abbrev pub owner_answer : User → Option LegacyNamespace → Option String → Result Bool
owner_answer user none github_user =
    if own_name user github_user then returned true else raised attribute_error
owner_answer user (some n) github_user = elim n.v3_namespace [
  | none ↦ returned false
  | some ns ↦ returned (has_role_on user ns)
]

-- Apart from superusers, a user owns a legacy namespace exactly if the user, or a group of the
-- user, has a role on its v3 namespace; a name without a legacy namespace is owned by the GitHub
-- user of that name, and for everybody else the request ends in an AttributeError.
pub is_namespace_owner_lem :
    (table : List LegacyNamespace) (role_table : List LegacyRole) (user : User)
    (endpoint : Endpoint)
    → user.is_superuser ≡ false
    → is_namespace_owner table role_table user endpoint
      ≡ (related_namespace table role_table endpoint >>= λ found. owner_answer user found.0 found.1)
unfolding is_namespace_owner
is_namespace_owner_lem table role_table user endpoint ordinary =
    rw ordinary (go (related_namespace table role_table endpoint))
  where
    go :
        (r : Result (Option LegacyNamespace × Option String))
        → (r >>= λ found.
            if is_missing found.0 && own_name user found.1
            then returned true
            else owner_by_v3 user found.0)
          ≡ (r >>= λ found. owner_answer user found.0 found.1)
    go (raised e) = refl
    go (returned (none, g)) = ground arith
    go (returned (some n, g)) = elim (Option-cases n.v3_namespace) [
      | inl absent ↦ ground arith
      | inr (ns, present) ↦ ground (arith, owners_lem user ns)
    ]
