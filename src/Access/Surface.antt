-- ===== src/Access/Surface.antt =====
-- galaxy_ng/app/access_control/statements/standalone.py: what the policies let pass, by view.
use galaxy_ng.Prelude.{
  ◌≡◌, refl, sym, ap, ◌∙◌, inl, inr, String, str_eq, Bool, true, false, not, ◌&&◌, ◌||◌, List, [],
  ◌∷◌, ◌++◌, map, all, Option, none, some, if◌then◌else◌, Bool-cases, arith,
}
use galaxy_ng.Access.Statement.{Effect, Statement, deny}
use galaxy_ng.Access.Engine.{
  Caller, Conditions, Engine, IsDocumented, principal_matches, action_matches, applies, is_allow,
  some_allow, some_deny, decide_lem,
}
use galaxy_ng.Access.Policy.Standalone.{standalone_statements, my_user_view_set_statements}
use galaxy_ng.Access.Policy.Shared.{user_statements, group_statements}
use galaxy_ng.Access.Policies.{find_policy, standalone, get_statements, view_statements}
use galaxy_ng.Access.Entitlement.{statements_or_none, view_statements_lem}

abbrev is_nil {ℓ} : {A : Type ℓ} → List A → Bool
is_nil [] = true
is_nil (x ∷ xs) = false

-- A request that nobody signed, with no condition of any statement fulfilled.
abbrev pub nobody : Caller
nobody = record { is_anonymous = true; is_admin = false }

abbrev pub nothing_holds : Conditions
nothing_holds c = false

abbrev names_nobody : Statement → Bool
names_nobody s =
    (str_eq s.principal "*" || str_eq s.principal "anonymous")
    && (is_nil s.condition && is_nil s.condition_expression)

abbrev has_effect : Bool → Effect → Bool
has_effect true e = is_allow e
has_effect false e = not (is_allow e)

-- The actions of the statements that name everybody, with no condition, and of the given effect.
unfoldable pub free_actions : Bool → List Statement → List String
free_actions effect [] = []
free_actions effect (s ∷ ss) =
    let rest = free_actions effect ss in
    if names_nobody s && has_effect effect s.effect then s.action ++ rest else rest

all-nothing : (xs : List String) → all nothing_holds xs ≡ is_nil xs
all-nothing [] = refl
all-nothing (x ∷ xs) = refl

applies-nobody :
    (action : String) (s : Statement)
    → applies nobody action nothing_holds s ≡ (names_nobody s && action_matches action s.action)
unfolding applies principal_matches
applies-nobody action s =
    ground (arith, all-nothing s.condition, all-nothing s.condition_expression)

action_matches-append :
    (action : String) (xs ys : List String)
    → action_matches action (xs ++ ys) ≡ (action_matches action xs || action_matches action ys)
unfolding action_matches
action_matches-append action [] ys = refl
action_matches-append action (x ∷ xs) ys = ground (arith, action_matches-append action xs ys)

some_allow-nobody :
    (action : String) (ss : List Statement)
    → some_allow nobody action nothing_holds ss ≡ action_matches action (free_actions true ss)
unfolding some_allow free_actions action_matches
some_allow-nobody action [] = refl
some_allow-nobody action (s ∷ ss) = ground (
  arith,
  applies-nobody action s,
  some_allow-nobody action ss,
  action_matches-append action s.action (free_actions true ss),
)

some_deny-nobody :
    (action : String) (ss : List Statement)
    → some_deny nobody action nothing_holds ss ≡ action_matches action (free_actions false ss)
unfolding some_deny free_actions action_matches
some_deny-nobody action [] = refl
some_deny-nobody action (s ∷ ss) = ground (
  arith,
  applies-nobody action s,
  some_deny-nobody action ss,
  action_matches-append action s.action (free_actions false ss),
)

decide-nobody :
    (e : Engine) (action : String) (ss : List Statement)
    → IsDocumented e
    → e.decide ss nobody action nothing_holds ≡ (
        action_matches action (free_actions true ss)
        && not (action_matches action (free_actions false ss)))
decide-nobody e action ss doc = ground (
  arith,
  decide_lem e doc ss nobody action nothing_holds,
  some_allow-nobody action ss,
  some_deny-nobody action ss,
)

-- By view: the actions that are open to everybody, and those that are closed to everybody.
abbrev pub anonymous_surface : List (String × (List String × List String))
anonymous_surface =
    ("CollectionViewSet", ([], []))
    ∷ ("AppRootViewSet", ("retrieve" ∷ [], []))
    ∷ ("AIDenyIndexView", ("ai-deny-index-list" ∷ [], []))
    ∷ ("NamespaceViewSet", ([], []))
    ∷ ("CollectionRemoteViewSet", ([], []))
    ∷ ("UserViewSet", ([], []))
    ∷ ("MyUserViewSet", ([], []))
    ∷ ("SyncListViewSet", ([], "*" ∷ []))
    ∷ ("MySyncListViewSet", ([], "*" ∷ []))
    ∷ ("TaskViewSet", ([], []))
    ∷ ("TagViewSet", ([], []))
    ∷ ("LoginView", ("*" ∷ [], []))
    ∷ ("LogoutView", ("*" ∷ [], []))
    ∷ ("TokenView", ([], []))
    ∷ ("GroupViewSet", ([], []))
    ∷ ("DistributionViewSet", ([], []))
    ∷ ("MyDistributionViewSet", ([], []))
    ∷ ("ContainerRepositoryViewSet", ([], []))
    ∷ ("ContainerReadmeViewset", ([], []))
    ∷ ("ContainerRegistryRemoteViewSet", ([], []))
    ∷ ("ContainerRemoteViewSet", ([], []))
    ∷ ("LegacyAccessPolicy", ("get" ∷ "get_task" ∷ "list" ∷ "retrieve" ∷ [], []))
    ∷ []

abbrev free_row : String × List Statement → String × (List String × List String)
free_row v = (v.0, (free_actions true v.1, free_actions false v.1))

anonymous_surface_lem : map free_row standalone_statements ≡ anonymous_surface
unfolding free_actions
anonymous_surface_lem = refl

abbrev pub surface_of : Option (List String × List String) → List String × List String
surface_of none = ([], [])
surface_of (some s) = s

find-free_row :
    (name : String) (t : List (String × List Statement))
    → surface_of (find_policy name (map free_row t)) ≡ (
      free_actions true (statements_or_none (find_policy name t)),
      free_actions false (statements_or_none (find_policy name t)),
    )
unfolding free_actions
find-free_row name [] = refl
find-free_row name ((j, ss) ∷ t) = elim (Bool-cases (str_eq j name)) [
  | inl e ↦ rw e
  | inr e ↦ rw e (find-free_row name t)
]

-- In standalone mode a request without a user, with no condition fulfilled, passes exactly at the
-- actions that the table of all views opens and does not close, whatever the names of the view and
-- of the action are, for every engine that is as documented.
pub decide-anonymous :
    (e : Engine) (name action : String)
    → IsDocumented e
    → let (opened, closed) = surface_of (find_policy name anonymous_surface) in
      e.decide (view_statements standalone name) nobody action nothing_holds
      ≡ (action_matches action opened && not (action_matches action closed))
unfolding get_statements
decide-anonymous e name action doc =
    let ss = statements_or_none (find_policy name standalone_statements) in
    let rows =
      ap (λ t. surface_of (find_policy name t)) (sym anonymous_surface_lem)
      ∙ find-free_row name standalone_statements in
    rw (view_statements_lem standalone name) (
      decide-nobody e action ss doc
      ∙ sym (ap (λ p. action_matches action p.0 && not (action_matches action p.1)) rows))

-- Deleting a user passes exactly if the caller may delete users, the user is no superuser and not
-- the caller, and users are not managed by a resource server, for every engine that is as
-- documented.
pub decide-delete_user :
    (e : Engine) (caller : Caller) (holds : Conditions)
    → IsDocumented e
    → e.decide user_statements caller "destroy" holds ≡ (
        holds "has_model_perms:galaxy.delete_user"
        && not (
            holds "user_is_superuser"
            || holds "is_current_user"
            || holds "is_local_resource_management_disabled"))
unfolding some_allow some_deny applies principal_matches action_matches
decide-delete_user e caller holds doc =
    decide_lem e doc user_statements caller "destroy" holds ∙ ground arith

-- The operations on users and groups that a resource server takes over.
abbrev pub managed_actions : List String
managed_actions = "create" ∷ "destroy" ∷ "update" ∷ "partial_update" ∷ []

local_management_denied :
    (caller : Caller) (action : String) (holds : Conditions)
    → action_matches action managed_actions ≡ true
    → holds "is_local_resource_management_disabled" ≡ true
    → applies caller action holds
        (deny managed_actions "*" ("is_local_resource_management_disabled" ∷ []))
      ≡ true
unfolding applies principal_matches
local_management_denied caller action holds a h = rw (a, h) refl

-- While a resource server is connected nobody creates, changes or deletes users and groups here:
-- the policies of users, of groups and of one's own user deny it to every caller.
pub decide-managed :
    (e : Engine) (caller : Caller) (action : String) (holds : Conditions)
    → IsDocumented e
    → action_matches action managed_actions ≡ true
    → holds "is_local_resource_management_disabled" ≡ true
    → (e.decide user_statements caller action holds ≡ false)
      × (e.decide group_statements caller action holds ≡ false)
      × (e.decide my_user_view_set_statements caller action holds ≡ false)
unfolding some_deny
decide-managed e caller action holds doc a h =
    let denied = local_management_denied caller action holds a h in
    (
      doc.denied_by_deny user_statements caller action holds (ground (arith, denied)),
      doc.denied_by_deny group_statements caller action holds (ground (arith, denied)),
      doc.denied_by_deny my_user_view_set_statements caller action holds (ground (arith, denied)),
    )
