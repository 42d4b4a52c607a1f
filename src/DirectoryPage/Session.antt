-- ===== src/DirectoryPage/Session.antt =====
-- The programs of the page and the invariant of the administrator's session.
use adscope_identity.Prelude.{String, true, false, ltb, length, Option, none, some, or_else}
use adscope_identity.Types.{OrganizationalUnit, UserRecord, OuForm, UserForm, GroupForm}
use adscope_identity.Forms.{split_members}
use adscope_identity.Async.{modify, return}
use adscope_identity.UserApi.State.{failure, warning}
use adscope_identity.UserApi.{request_error_message}
use adscope_identity.AdminApi.State.{
  Method, Body, get_method, no_body, post_method, patch_method, put_method, changed_group,
  new_group, member_list, empty_payload, next_id_payload,
}
use adscope_identity.AdminApi.{Action, Platform, run_action}
use adscope_identity.AdminApi.Session.{
  KeepsSession, Preserves, write_refs-Preserves, notify-Preserves, in_turn, caught, gives, either,
  afterwards, changes, reads, beside, confirm-Keeps,
}
use adscope_identity.AdminApi.Session.Operations.{
  admin_fetch-Keeps, present-Keeps, run_action-Keeps, load_ous-Keeps, load_users-Keeps,
  load_groups-Keeps, load_sync_domains-Keeps,
}
use adscope_identity.DirectoryPage.{Page, is_chosen, is_in_use, open_user_editor, open_ou_editor}
use adscope_identity.DirectoryPage.Requests.{group_payload}
use adscope_identity.DirectoryPage.Programs.{
  item_path, members_path, on_page, set_saving, close_editor, select, while_saving, send,
  next_employee_id, create_user, start_user_editor, send_ou, save_ou, send_user, save_user,
  send_group, save_group, forget_reset, reset_password_of, reset_user_password,
}
use adscope_identity.DirectoryPage.Removals.{
  forget_ou, forget_user, ou_for_node, edit_ou_node, remove_unused, remove_ou, remove_ou_node,
  remove_user,
}

on_page-Preserves : (f : Page → Page) → Preserves (on_page f)
on_page-Preserves f = write_refs-Preserves (λ r. record r { directory = f r.directory })

turns : (f : Page → Page) → KeepsSession 0 (modify (on_page f))
turns f = changes (on_page-Preserves f)

while_saving-Keeps : (t : Action (Unit {0})) → KeepsSession 0 t → KeepsSession 0 (while_saving t)
while_saving-Keeps t h =
    in_turn (turns (set_saving true)) (λ _. afterwards h (on_page-Preserves (set_saving false)))

-- An action with its message, while the page saves.
saves :
    {t : Action (Unit {0})} (m : Option String)
    → KeepsSession 0 t
    → KeepsSession 0 (while_saving (run_action t m))
saves {t} m h = while_saving-Keeps (run_action t m) (run_action-Keeps t m h)

send-Keeps :
    (path : String) (method : Method) (body : Body) → KeepsSession 0 (send path method body)
send-Keeps path method body =
    in_turn (admin_fetch-Keeps empty_payload path method body) (λ _. gives tt)

module _ (platform : Platform) where
  next_employee_id-Keeps : KeepsSession 0 (next_employee_id platform)
  unfolding next_employee_id
  next_employee_id-Keeps =
      caught
        (in_turn
          (admin_fetch-Keeps next_id_payload "/api/admin/users/next-employee-id" get_method no_body)
          (λ body. in_turn (present-Keeps platform body) (λ response. gives response.employee_id)))
        (λ e.
          in_turn (changes (notify-Preserves (failure (request_error_message e "请求失败"))))
            (λ _. gives ""))

  create_user-Keeps : KeepsSession 0 (create_user platform)
  unfolding create_user
  create_user-Keeps =
      in_turn next_employee_id-Keeps
        (λ id. either (is_chosen (some id)) (turns (open_user_editor none id)) (gives tt))

  pub start_user_editor-Keeps :
      (user : Option UserRecord) → KeepsSession 0 (start_user_editor platform user)
  unfolding start_user_editor
  start_user_editor-Keeps none =
      reads (λ s. either (is_chosen s.refs.directory.selected_ou_id) create_user-Keeps (gives tt))
  start_user_editor-Keeps (some user) = turns (open_user_editor (some user) user.employee_id)

  send_ou-Keeps :
      (editing : Option String) (form : OuForm) → KeepsSession 0 (send_ou platform editing form)
  unfolding send_ou
  send_ou-Keeps editing form =
      either (is_chosen editing) (send-Keeps _ _ _)
        (in_turn (send-Keeps _ _ _) (λ _. turns (λ p. select p.ou_form.id p)))

  pub save_ou-Keeps : KeepsSession 0 (save_ou platform)
  unfolding save_ou
  save_ou-Keeps = reads (λ s. saves _ (
      in_turn (send_ou-Keeps s.refs.directory.editing_ou_id s.refs.directory.ou_form) (λ _.
        in_turn (beside (load_ous-Keeps platform) (load_sync_domains-Keeps platform))
          (λ _. turns close_editor))))

  send_user-Keeps :
      (editing : Option String) (form : UserForm) → KeepsSession 0 (send_user platform editing form)
  unfolding send_user
  send_user-Keeps editing form = either (is_chosen editing) (send-Keeps _ _ _) (send-Keeps _ _ _)

  pub save_user-Keeps : KeepsSession 0 (save_user platform)
  unfolding save_user
  save_user-Keeps = reads (λ s. saves _ (
      in_turn (send_user-Keeps s.refs.directory.editing_user_id s.refs.directory.user_form) (λ _.
        in_turn (turns (λ p. select p.user_form.organizational_unit_id p)) (λ _.
          in_turn (beside (load_users-Keeps platform) (load_sync_domains-Keeps platform))
            (λ _. turns close_editor)))))

  send_group-Keeps :
      (editing : Option String) (form : GroupForm)
      → KeepsSession 0 (send_group platform editing form)
  unfolding send_group
  send_group-Keeps editing form =
      either (is_chosen editing)
        (in_turn
          (send-Keeps (item_path platform "/api/admin/groups" (or_else editing "")) patch_method
            (changed_group (group_payload form)))
          (λ _. reads (λ s.
            send-Keeps (members_path platform (or_else s.refs.directory.editing_group_id "null"))
              put_method (member_list (split_members form.member_employee_ids)))))
        (in_turn
          (send-Keeps "/api/admin/groups" post_method (new_group form.id (group_payload form)))
          (λ _. reads (λ s.
            either (ltb 0 (length (split_members form.member_employee_ids)))
              (send-Keeps (members_path platform s.refs.directory.group_form.id) put_method
                (member_list (split_members form.member_employee_ids)))
              (gives tt))))

  pub save_group-Keeps : KeepsSession 0 (save_group platform)
  unfolding save_group
  save_group-Keeps = reads (λ s. saves _ (
      in_turn (send_group-Keeps s.refs.directory.editing_group_id s.refs.directory.group_form) (λ _.
        in_turn (turns (λ p. select p.group_form.organizational_unit_id p)) (λ _.
          in_turn (beside (load_groups-Keeps platform) (load_sync_domains-Keeps platform))
            (λ _. turns close_editor)))))

  reset_password_of-Keeps :
      (target : UserRecord) → KeepsSession 0 (reset_password_of platform target)
  unfolding reset_password_of
  reset_password_of-Keeps target = reads (λ s. saves _ (
      in_turn (send-Keeps _ _ _)
        (λ _. in_turn (load_sync_domains-Keeps platform) (λ _. turns (forget_reset platform)))))

  reset_target :
      (o : Option UserRecord)
      → KeepsSession 0
          (elim o [ none ↦ return tt | some target ↦ reset_password_of platform target ])
  reset_target none = gives tt
  reset_target (some target) = reset_password_of-Keeps target

  pub reset_user_password-Keeps : KeepsSession 0 (reset_user_password platform)
  unfolding reset_user_password
  reset_user_password-Keeps = reads (λ s. reset_target s.refs.directory.reset_password_target)

  remove_unused-Keeps : (ou : OrganizationalUnit) → KeepsSession 0 (remove_unused platform ou)
  unfolding remove_unused
  remove_unused-Keeps ou = saves _ (
      in_turn (send-Keeps _ _ _) (λ _. in_turn (turns (forget_ou ou.id)) (λ _.
        beside (load_ous-Keeps platform) (
          beside (load_users-Keeps platform)
            (beside (load_groups-Keeps platform) (load_sync_domains-Keeps platform))))))

  pub remove_ou-Keeps : (ou : OrganizationalUnit) → KeepsSession 0 (remove_ou platform ou)
  unfolding remove_ou
  remove_ou-Keeps ou = reads (λ s.
      either (is_in_use ou s.content.organizational_units s.content.users s.content.groups)
        (changes (notify-Preserves (warning "该 OU 还有子 OU、用户或安全组，不能删除")))
        (in_turn (confirm-Keeps _)
          (λ confirmed. either confirmed (remove_unused-Keeps ou) (gives tt))))

  remove_found :
      (o : Option OrganizationalUnit)
      → KeepsSession 0 (elim o [ none ↦ return tt | some ou ↦ remove_ou platform ou ])
  remove_found none = gives tt
  remove_found (some ou) = remove_ou-Keeps ou

  pub remove_ou_node-Keeps : (key : String) → KeepsSession 0 (remove_ou_node platform key)
  unfolding remove_ou_node
  remove_ou_node-Keeps key =
      reads (λ s. remove_found (ou_for_node key s.content.organizational_units))

  pub remove_user-Keeps : (user : UserRecord) → KeepsSession 0 (remove_user platform user)
  unfolding remove_user
  remove_user-Keeps user = in_turn (confirm-Keeps _) (λ confirmed.
      either confirmed
        (saves _ (
          in_turn (send-Keeps _ _ _) (λ _. in_turn (turns (forget_user user.employee_id)) (λ _.
            beside (load_users-Keeps platform)
              (beside (load_groups-Keeps platform) (load_sync_domains-Keeps platform))))))
        (gives tt))

found-Preserves :
    (o : Option OrganizationalUnit)
    → Preserves (λ s. elim o [
      | none ↦ s
      | some ou ↦ on_page (λ p. open_ou_editor (some ou) p.selected_ou_id p) s
    ])
found-Preserves none n s h = h
found-Preserves (some ou) n s h =
    on_page-Preserves (λ p. open_ou_editor (some ou) p.selected_ou_id p) n s h

pub edit_ou_node-Keeps : (key : String) → KeepsSession 0 (edit_ou_node key)
unfolding edit_ou_node
edit_ou_node-Keeps key =
    changes (λ n s h. found-Preserves (ou_for_node key s.content.organizational_units) n s h)
