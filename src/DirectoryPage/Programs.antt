-- ===== src/DirectoryPage/Programs.antt =====
-- portal/web/app/pages/admin/directory.vue: the saves of the page, and the editors that ask the server.
use Prim.Native.String
use adscope_identity.Prelude.{
  String, Bool, true, false, ltb, length, if◌then◌else◌, Option, none, some, or_else,
}
use adscope_identity.Types.{UserRecord, OuForm, UserForm, GroupForm}
use adscope_identity.Forms.{split_members}
use adscope_identity.Async.{return, ◌>>=◌, ◌>>◌, catch, finally, read, modify, all_of}
use adscope_identity.UserApi.State.{failure}
use adscope_identity.UserApi.{request_error_message}
use adscope_identity.AdminApi.State.{
  Store, Method, get_method, post_method, patch_method, put_method, Body, no_body, new_ou,
  changed_ou, new_user, changed_user, new_group, changed_group, member_list, new_password,
  empty_payload, next_id_payload,
}
use adscope_identity.AdminApi.{
  Action, Platform, notify, run_action, write_refs, admin_fetch, present,
}
use adscope_identity.AdminApi.Loads.{load_ous, load_users, load_groups, load_sync_domains}
use adscope_identity.DirectoryPage.{Page, is_chosen, open_user_editor}
use adscope_identity.DirectoryPage.Requests.{ou_payload, user_payload, group_payload}

abbrev pub on_page : (Page → Page) → Store → Store
on_page f = write_refs (λ r. record r { directory = f r.directory })

abbrev pub set_saving : Bool → Page → Page
set_saving b p = record p { saving = b }

abbrev pub close_editor : Page → Page
close_editor p = record p { editor = none }

abbrev pub select : String → Page → Page
select id p = record p { selected_ou_id = some id }

-- `saving.value = true; try { … } finally { saving.value = false }`
abbrev pub while_saving : Action (Unit {0}) → Action (Unit {0})
while_saving t = modify (on_page (set_saving true)) >> finally t (on_page (set_saving false))

-- A request whose body the page does not use.
abbrev pub send : String → Method → Body → Action (Unit {0})
send path method body = admin_fetch empty_payload path method body >>= λ _. return tt

module _ (platform : Platform) where
  abbrev pub item_path : String → String → String
  item_path base id = String.◌++◌ base (String.◌++◌ "/" (platform.encode_uri_component id))

  abbrev pub members_path : String → String
  members_path id = String.◌++◌ (item_path "/api/admin/groups" id) "/members"

  -- The action of `runAction` that asks for the next identifier; the empty text is left if it fails.
  unfoldable pub next_employee_id : Action String
  next_employee_id =
      catch
        (do
          body ← admin_fetch next_id_payload "/api/admin/users/next-employee-id" get_method no_body
          response ← present platform body
          return response.employee_id)
        (λ e. do modify (notify (failure (request_error_message e "请求失败"))); return "")

  unfoldable pub create_user : Action (Unit {0})
  create_user = do
    id ← next_employee_id
    if is_chosen (some id) then modify (on_page (open_user_editor none id)) else return tt

  -- `openUserEditor`
  unfoldable pub start_user_editor : Option UserRecord → Action (Unit {0})
  start_user_editor (some user) = modify (on_page (open_user_editor (some user) user.employee_id))
  start_user_editor none = do
    s ← read
    if is_chosen s.refs.directory.selected_ou_id then create_user else return tt

  -- The request of `saveOu`, and the selection of a new unit.
  unfoldable pub send_ou : Option String → OuForm → Action (Unit {0})
  send_ou editing form =
      if is_chosen editing
      then send (item_path "/api/admin/ous" (or_else editing "")) patch_method
          (changed_ou (ou_payload form))
      else (do
        send "/api/admin/ous" post_method (new_ou form.id (ou_payload form))
        modify (on_page (λ p. select p.ou_form.id p)))

  unfoldable pub save_ou : Action (Unit {0})
  save_ou = do
    s ← read
    while_saving (
        run_action
          (do
            send_ou s.refs.directory.editing_ou_id s.refs.directory.ou_form
            all_of (load_ous platform) (load_sync_domains platform)
            modify (on_page close_editor))
          (some (if is_chosen s.refs.directory.editing_ou_id then "OU 已更新" else "OU 已创建")))

  unfoldable pub send_user : Option String → UserForm → Action (Unit {0})
  send_user editing form =
      if is_chosen editing
      then send (item_path "/api/admin/users" (or_else editing "")) patch_method
          (changed_user (user_payload form))
      else send "/api/admin/users" post_method (new_user form.initial_password (user_payload form))

  unfoldable pub save_user : Action (Unit {0})
  save_user = do
    s ← read
    while_saving (
        run_action
          (do
            send_user s.refs.directory.editing_user_id s.refs.directory.user_form
            modify (on_page (λ p. select p.user_form.organizational_unit_id p))
            all_of (load_users platform) (load_sync_domains platform)
            modify (on_page close_editor))
          (some (if is_chosen s.refs.directory.editing_user_id then "用户已更新" else "用户已创建")))

  -- The requests of `saveGroup`. The identifier is read again before the second one, where
  -- `encodeURIComponent(null)` would be `null`.
  unfoldable pub send_group : Option String → GroupForm → Action (Unit {0})
  send_group editing form =
      let members = split_members form.member_employee_ids in
      if is_chosen editing
      then (do
        send (item_path "/api/admin/groups" (or_else editing "")) patch_method
            (changed_group (group_payload form))
        s ← read
        send (members_path (or_else s.refs.directory.editing_group_id "null")) put_method
            (member_list members))
      else (do
        send "/api/admin/groups" post_method (new_group form.id (group_payload form))
        s ← read
        if ltb 0 (length members)
            then send (members_path s.refs.directory.group_form.id) put_method (member_list members)
            else return tt)

  unfoldable pub save_group : Action (Unit {0})
  save_group = do
    s ← read
    while_saving (
        run_action
          (do
            send_group s.refs.directory.editing_group_id s.refs.directory.group_form
            modify (on_page (λ p. select p.group_form.organizational_unit_id p))
            all_of (load_groups platform) (load_sync_domains platform)
            modify (on_page close_editor))
          (some (if is_chosen s.refs.directory.editing_group_id then "组已更新" else "组已创建")))

  abbrev pub forget_reset : Page → Page
  forget_reset p = record p { reset_password_target = none; reset_password_value = "" }

  unfoldable pub reset_password_of : UserRecord → Action (Unit {0})
  reset_password_of target = do
    s ← read
    while_saving (
        run_action
          (do
            send (String.◌++◌ (item_path "/api/admin/users" target.employee_id) "/password-reset")
                post_method (new_password s.refs.directory.reset_password_value)
            load_sync_domains platform
            modify (on_page forget_reset))
          (some "密码已重置，正在同步到所属域"))

  unfoldable pub reset_user_password : Action (Unit {0})
  reset_user_password = do
    s ← read
    elim s.refs.directory.reset_password_target [
      | none ↦ return tt
      | some target ↦ reset_password_of target
    ]
