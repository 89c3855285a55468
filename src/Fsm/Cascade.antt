-- ===== src/Fsm/Cascade.antt =====
-- The operations of fsm.go that touch several tables: deleteUser, deleteGroup and setMembers.
use dagger_kubernetes.Prelude.{
  Bool, true, false, none, some, List, [], ◌∷◌, String, str_eq, if◌then◌else◌,
}
use dagger_kubernetes.Maps.{Map, get, remove, has, map_values}
use dagger_kubernetes.Domain.{User, Group, Project, TraceMeta, Result, ok, err, not_found}
use dagger_kubernetes.Fsm.State.{FsmState, UserTable, GroupTable, oauth_key}
use dagger_kubernetes.Fsm.Tokens.{delete_token}
use dagger_kubernetes.Fsm.Members.{forget_user, forget_group, replace_members}

-- the loops that null a reference; an entry without the reference is left as it is
unfoldable pub clear_trace_user : String → TraceMeta → TraceMeta
clear_trace_user id m = if str_eq m.user_id id then record m { user_id = "" } else m

unfoldable pub clear_trace_group : String → TraceMeta → TraceMeta
clear_trace_group id m = if str_eq m.group_id id then record m { group_id = "" } else m

unfoldable pub clear_project_group : String → Project → Project
clear_project_group id p = if str_eq p.group_id id then record p { group_id = "" } else p

-- the check loop of setMembers: is every listed user known?
unfoldable pub all_known : Map User → List String → Bool
all_known users [] = true
all_known users (uid ∷ uids) =
    let rest = all_known users uids in if has users uid then rest else false

module _ (lower : String → String) where
  -- the last three deletes of deleteUser
  unfoldable pub remove_user_row : String → User → UserTable → UserTable
  remove_user_row id u t = record {
    users = remove t.users id;
    users_by_name = remove t.users_by_name (lower u.username);
    users_by_oauth =
        if str_eq u.oauth_id ""
        then t.users_by_oauth
        else remove t.users_by_oauth (oauth_key u.oauth_provider u.oauth_id);
  }

  -- the last two deletes of deleteGroup
  unfoldable pub remove_group_row : String → Group → GroupTable → GroupTable
  remove_group_row id g t = record {
    groups = remove t.groups id;
    groups_by_name = remove t.groups_by_name (lower g.name);
  }

  -- deleteUser
  unfoldable pub delete_user : String → FsmState → FsmState × Result (Unit {0})
  delete_user id s = elim (get s.users id) [
    | none ↦ (s, err not_found)
    | some u ↦ (
      record s {
        token_table = delete_token id s.token_table;
        member_table = forget_user id s.member_table;
        traces = map_values (clear_trace_user id) s.traces;
        user_table = remove_user_row id u s.user_table;
      },
      ok tt,
    )
  ]

  -- deleteGroup
  unfoldable pub delete_group : String → FsmState → FsmState × Result (Unit {0})
  delete_group id s = elim (get s.groups id) [
    | none ↦ (s, err not_found)
    | some g ↦ (
      record s {
        member_table = forget_group id s.member_table;
        project_table = record s.project_table {
          projects = map_values (clear_project_group id) s.projects;
        };
        traces = map_values (clear_trace_group id) s.traces;
        group_table = remove_group_row id g s.group_table;
      },
      ok tt,
    )
  ]

-- setMembers
unfoldable pub set_members : String → List String → FsmState → FsmState × Result (Unit {0})
set_members group_id user_ids s =
    if has s.groups group_id
    then (if all_known s.users user_ids
        then (record s { member_table = replace_members group_id user_ids s.member_table }, ok tt)
        else (s, err not_found))
    else (s, err not_found)
