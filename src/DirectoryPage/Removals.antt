-- ===== src/DirectoryPage/Removals.antt =====
-- portal/web/app/pages/admin/directory.vue: the removals of the page, and the nodes of its tree.
use Prim.Native.String
use adscope_identity.Prelude.{
  String, ◌==◌, string_equality, option_equality, if◌then◌else◌, Option, none, some, List, find?,
}
use adscope_identity.Types.{OrganizationalUnit, UserRecord}
use adscope_identity.Async.{return, ◌>>=◌, ◌>>◌, read, modify, call, all_of}
use adscope_identity.UserApi.State.{warning}
use adscope_identity.AdminApi.State.{delete_method, no_body, confirm}
use adscope_identity.AdminApi.{Action, Platform, notify, run_action}
use adscope_identity.AdminApi.Loads.{load_ous, load_users, load_groups, load_sync_domains}
use adscope_identity.DirectoryPage.{Page, is_in_use, open_ou_editor}
use adscope_identity.DirectoryPage.Programs.{on_page, while_saving, send, item_path}

-- What the page forgets of a unit that was removed.
unfoldable pub forget_ou : String → Page → Page
forget_ou id p =
    let q = if p.selected_ou_id == some id then record p { selected_ou_id = none } else p in
    if p.editing_ou_id == some id then record q { editor = none; editing_ou_id = none } else q

-- `resetPasswordTarget.value?.employee_id`
abbrev pub target_id : Option UserRecord → Option String
target_id none = none
target_id (some user) = some user.employee_id

-- What the page forgets of a user that was removed.
unfoldable pub forget_user : String → Page → Page
forget_user id p =
    let q =
      if p.editing_user_id == some id
      then record p { editor = none; editing_user_id = none }
      else p in
    if target_id p.reset_password_target == some id
    then record q { reset_password_target = none; reset_password_value = "" }
    else q

abbrev pub ou_for_node : String → List OrganizationalUnit → Option OrganizationalUnit
ou_for_node key ous = find? (λ ou. ou.id == key) ous

unfoldable pub edit_ou_node : String → Action (Unit {0})
edit_ou_node key = modify (λ s. elim (ou_for_node key s.content.organizational_units) [
  | none ↦ s
  | some ou ↦ on_page (λ p. open_ou_editor (some ou) p.selected_ou_id p) s
])

module _ (platform : Platform) where
  -- The removal of a unit that the administrator confirmed.
  unfoldable pub remove_unused : OrganizationalUnit → Action (Unit {0})
  remove_unused ou = while_saving (
      run_action
        (do
          send (item_path platform "/api/admin/ous" ou.id) delete_method no_body
          modify (on_page (forget_ou ou.id))
          all_of (load_ous platform) (
              all_of (load_users platform)
                (all_of (load_groups platform) (load_sync_domains platform))))
        (some "组织单元已删除"))

  unfoldable pub remove_ou : OrganizationalUnit → Action (Unit {0})
  remove_ou ou = do
    s ← read
    if is_in_use ou s.content.organizational_units s.content.users s.content.groups
        then modify (notify (warning "该 OU 还有子 OU、用户或安全组，不能删除"))
        else (do
          confirmed ← call (confirm (String.◌++◌ "删除 " (String.◌++◌ ou.name "？")))
          if confirmed then remove_unused ou else return tt)

  unfoldable pub remove_ou_node : String → Action (Unit {0})
  remove_ou_node key = do
    s ← read
    elim (ou_for_node key s.content.organizational_units) [
      | none ↦ return tt
      | some ou ↦ remove_ou ou
    ]

  unfoldable pub remove_user : UserRecord → Action (Unit {0})
  remove_user user = do
    confirmed ← call (
        confirm (
          String.◌++◌ "删除 "
            (String.◌++◌ user.display_name (String.◌++◌ "（" (String.◌++◌ user.employee_id "）？")))))
    if confirmed
        then while_saving (
            run_action
              (do
                send (item_path platform "/api/admin/users" user.employee_id) delete_method no_body
                modify (on_page (forget_user user.employee_id))
                all_of (load_users platform)
                    (all_of (load_groups platform) (load_sync_domains platform)))
              (some "账号已删除，域将禁用并隔离该账号"))
        else return tt
