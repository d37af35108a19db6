-- ===== src/Signals/Dispatch.antt =====
-- galaxy_ng/app/signals/handlers.py: the flags against echoes and the dispatch of the signals. What
-- a call does to the tables, and which signals it fires, is the parameter `Library`.
use galaxy_ng.Prelude.{
  ℕ, zero, suc, ◌≡◌, ◌≢◌, refl, String, Bool, true, false, ◌||◌, List, [], ◌∷◌, Option,
  if◌then◌else◌, arith, ap,
}
use galaxy_ng.Signals.Model.{
  RoleDefinition, Obj, Tables, Signal, role_saved, role_deleted, role_permissions_changed,
  roledef_saved, roledef_deleted, roledef_permissions_changed, user_role_saved, user_role_deleted,
  group_role_saved, group_role_deleted, user_assignment_saved, user_assignment_deleted,
  team_assignment_saved, team_assignment_deleted, Call, Outcome, calls, runtime_error,
  attribute_error, value_error,
}
use galaxy_ng.Signals.Roles.{
  copy_role_to_role_definition, delete_role_to_role_definition, copy_permission_role_to_rd,
  copy_role_definition_to_role, delete_role_definition_to_role, copy_permission_rd_to_role,
}
use galaxy_ng.Signals.Assignments.{
  copy_pulp_user_role, delete_pulp_user_role, copy_pulp_group_role, delete_pulp_group_role,
  copy_dab_user_role_assignment, delete_dab_user_role_assignment, copy_dab_team_role_assignment,
  delete_dab_team_role_assignment,
}

-- `rbac_state`
pub record Flags : Type 0 where
  pub pulp_action : Bool
  pub dab_action : Bool

pub record State : Type 0 where
  pub tables : Tables
  pub flags : Flags

abbrev pub rbac_signal_in_progress : Flags → Bool
rbac_signal_in_progress f = f.dab_action || f.pulp_action

pub data Side : Type 0 where
  no_side pulp_side dab_side : Side

-- The context manager that a handler enters; those of permission changes enter none.
abbrev pub side_of : Signal → Side
side_of (role_saved r) = pulp_side
side_of (role_deleted r) = dab_side
side_of (role_permissions_changed r p v) = no_side
side_of (roledef_saved rd) = dab_side
side_of (roledef_deleted rd) = dab_side
side_of (roledef_permissions_changed rd p v) = no_side
side_of (user_role_saved a) = pulp_side
side_of (user_role_deleted a) = pulp_side
side_of (group_role_saved a) = pulp_side
side_of (group_role_deleted a) = pulp_side
side_of (user_assignment_saved a) = dab_side
side_of (user_assignment_deleted a) = dab_side
side_of (team_assignment_saved a) = dab_side
side_of (team_assignment_deleted a) = dab_side

abbrev pub enter : Side → Flags → Flags
enter no_side f = f
enter pulp_side f = record f { pulp_action = true }
enter dab_side f = record f { dab_action = true }

-- A dispatch is over, was ended by an exception, or ran out of fuel.
pub data Fired : Type 0 where
  done failed : State → Fired
  starved : Fired

pub record Library : Type 0 where
  pub perform : Call → Tables → Tables
  pub fires : Call → Tables → List Signal

module _ (role_description : String → Option String) (validates : RoleDefinition → Obj → Bool)
    (jwt_managed : List String) where
  unfoldable pub body : Tables → Signal → Outcome
  body t (role_saved r) = copy_role_to_role_definition role_description t r
  body t (role_deleted r) = calls (delete_role_to_role_definition t r)
  body t (role_permissions_changed r is_pre reverse) = copy_permission_role_to_rd t r is_pre reverse
  body t (roledef_saved rd) = calls (copy_role_definition_to_role t rd)
  body t (roledef_deleted rd) = calls (delete_role_definition_to_role t rd)
  body t (roledef_permissions_changed rd is_pre reverse) =
      copy_permission_rd_to_role t rd is_pre reverse
  body t (user_role_saved a) = calls (copy_pulp_user_role validates jwt_managed t a)
  body t (user_role_deleted a) = calls (delete_pulp_user_role t a)
  body t (group_role_saved a) = calls (copy_pulp_group_role t a)
  body t (group_role_deleted a) = calls (delete_pulp_group_role t a)
  body t (user_assignment_saved a) = copy_dab_user_role_assignment t a
  body t (user_assignment_deleted a) = delete_dab_user_role_assignment t a
  body t (team_assignment_saved a) = calls (copy_dab_team_role_assignment t a)
  body t (team_assignment_deleted a) = calls (delete_dab_team_role_assignment t a)

abbrev and_then : Fired → (State → Fired) → Fired
and_then (done s) k = k s
and_then (failed s) k = failed s
and_then starved k = starved

-- The signals that one call fires, in order, and the calls of a handler, in order.
unfoldable pub fire_all : (State → Signal → Fired) → State → List Signal → Fired
fire_all fire s [] = done s
fire_all fire s (x ∷ xs) = and_then (fire s x) (λ s'. fire_all fire s' xs)

unfoldable pub run_calls : Library → (State → Signal → Fired) → State → List Call → Fired
run_calls lib fire s [] = done s
run_calls lib fire s (c ∷ cs) =
    and_then (fire_all fire (record s { tables = lib.perform c s.tables }) (lib.fires c s.tables))
      (λ s'. run_calls lib fire s' cs)

-- The `finally` of the context managers.
abbrev pub restore : Flags → Fired → Fired
restore f (done s) = done (record s { flags = f })
restore f (failed s) = failed (record s { flags = f })
restore f starved = starved

module _ (role_description : String → Option String) (validates : RoleDefinition → Obj → Bool)
    (jwt_managed : List String) (lib : Library) where
  -- A receiver returns at once while a handler is at work, else it makes its calls with its flag set.
  unfoldable pub dispatch : ℕ → State → Signal → Fired
  dispatch zero s x = starved
  dispatch (suc n) s x =
      if rbac_signal_in_progress s.flags
      then done s
      else elim (body role_description validates jwt_managed s.tables x) [
        | runtime_error ↦ failed s
        | attribute_error ↦ failed s
        | value_error ↦ failed s
        | calls cs ↦
            restore s.flags
              (run_calls lib (dispatch n) (record s { flags = enter (side_of x) s.flags }) cs)
      ]

  fire_all_busy :
      (n : ℕ) (s : State) (xs : List Signal)
      → rbac_signal_in_progress s.flags ≡ true
      → fire_all (dispatch (suc n)) s xs ≡ done s
  unfolding fire_all dispatch
  fire_all_busy n s [] busy = refl
  fire_all_busy n s (x ∷ xs) busy = rw busy (fire_all_busy n s xs busy)

  -- What the calls do to the tables, with no signal in sight.
  abbrev pub perform_all : List Call → Tables → Tables
  perform_all [] t = t
  perform_all (c ∷ cs) t = perform_all cs (lib.perform c t)

  run_calls_busy :
      (n : ℕ) (s : State) (cs : List Call)
      → rbac_signal_in_progress s.flags ≡ true
      → run_calls lib (dispatch (suc n)) s cs ≡ done (record s { tables = perform_all cs s.tables })
  unfolding run_calls
  run_calls_busy n s [] busy = refl
  run_calls_busy n s (c ∷ cs) busy =
      rw
        (fire_all_busy n (record s { tables = lib.perform c s.tables }) (lib.fires c s.tables) busy)
        (run_calls_busy n (record s { tables = lib.perform c s.tables }) cs busy)

  enter_busy :
      (side : Side) (f : Flags) → side ≢ no_side → rbac_signal_in_progress (enter side f) ≡ true
  enter_busy no_side f h = absurd (h refl)
  enter_busy pulp_side f h = ground arith
  enter_busy dab_side f h = refl

  -- While no handler is at work, the dispatch of a signal whose handler enters a context manager
  -- and makes its calls without an exception ends within two levels whatever signals the libraries
  -- fire during its calls: none of them is answered, the tables hold the effect of the handler's
  -- own calls in order, and the flags are those from before.
  pub dispatch-no_echo :
      (n : ℕ) (s : State) (x : Signal) (cs : List Call)
      → rbac_signal_in_progress s.flags ≡ false
      → side_of x ≢ no_side
      → body role_description validates jwt_managed s.tables x ≡ calls cs
      → dispatch (suc (suc n)) s x ≡ done (record s { tables = perform_all cs s.tables })
  unfolding dispatch
  dispatch-no_echo n s x cs idle sided e =
      rw (idle, e)
        (ap (restore s.flags) (
          run_calls_busy n (record s { flags = enter (side_of x) s.flags }) cs
            (enter_busy (side_of x) s.flags sided)))
