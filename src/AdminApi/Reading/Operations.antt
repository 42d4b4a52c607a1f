-- ===== src/AdminApi/Reading/Operations.antt =====
-- The loads of the administrator, and the handlers of the pages that only read.
use adscope_identity.Prelude.{String, Option, none, some, refl, Bool, true, false, eqb}
use adscope_identity.Types.{UserRecord}
use adscope_identity.Async.{error}
use adscope_identity.UserApi.State.{Response, success, failure}
use adscope_identity.UserApi.{is_ok, status_message, request_error_message}
use adscope_identity.AdminApi.State.{
  Store, Flags, Body, get_method, no_body, Payload, domains_payload, ous_payload, users_payload,
  groups_payload, sync_payload, clients_payload, next_id_payload, json, fetch, write_clipboard,
  Value,
}
use adscope_identity.AdminApi.{
  Action, Platform, token_ready, track_request, raise_pending, lower_pending, check_admin_response,
  read_body, admin_request, admin_fetch, run_action, present, clear_session, notify, write_flags,
}
use adscope_identity.AdminApi.Loads.{
  flag_domains, put_domains, flag_ous, put_ous, flag_users, put_users, flag_groups, put_groups,
  flag_sync_domains, put_sync_domains, flag_oauth_clients, put_oauth_clients, load, load_domains,
  load_ous, load_users, load_groups, load_sync_domains, load_oauth_clients,
}
use adscope_identity.AdminApi.Signing.{refresh_directory}
use adscope_identity.AdminApi.Reading.{
  Reads, in_turn, caught, gives, fails, either, looks, afterwards, writes, calls, beside,
}
use adscope_identity.ClientsPage.Programs.{
  refresh_clients, copy_text as copy_client_text, copy_secret,
}
use adscope_identity.DomainsPage.Programs.{
  refresh_domains, copy_text as copy_key_text, copy_syncer_key,
}
use adscope_identity.DirectoryPage.{is_chosen, open_user_editor}
use adscope_identity.DirectoryPage.Programs.{
  on_page, next_employee_id, create_user, start_user_editor,
}
use adscope_identity.DirectoryPage.Removals.{edit_ou_node}

check_admin_response-Reads : (r : Response) → Reads (check_admin_response r)
unfolding check_admin_response
check_admin_response-Reads r = either (is_ok r.status) (gives tt) (
    either (eqb r.status 401)
      (in_turn (writes clear_session) (λ _. fails (error "管理会话已失效，请重新输入管理凭证")))
      (fails (error (status_message r))))

read_body-Reads : (p : Payload) (r : Response) → Reads (read_body p r)
unfolding read_body
read_body-Reads p r =
    either (eqb r.status 204) (gives none) (in_turn (calls (json p) refl) (λ v. gives (some v)))

-- A request with a safe method.
pub admin_fetch-Reads :
    (p : Payload) (path : String) (body : Body) → Reads (admin_fetch p path get_method body)
unfolding admin_fetch track_request
admin_fetch-Reads p path body = looks (λ s.
    either (token_ready s)
      (in_turn (writes raise_pending) (λ _. afterwards lower_pending (
        looks (λ s.
          in_turn (calls (fetch (admin_request path get_method body s.csrf_token)) refl)
            (λ r. in_turn (check_admin_response-Reads r) (λ _. read_body-Reads p r))))))
      (fails (error "请先输入管理凭证")))

pub run_action-Reads :
    (action : Action (Unit {0})) (m : Option String) → Reads action → Reads (run_action action m)
unfolding run_action
run_action-Reads action none h =
    caught (in_turn h (λ _. writes _))
      (λ e. writes (notify (failure (request_error_message e "请求失败"))))
run_action-Reads action (some m) h =
    caught (in_turn h (λ _. writes _))
      (λ e. writes (notify (failure (request_error_message e "请求失败"))))

module _ (platform : Platform) where
  present-Reads : {A : Type 0} (o : Option A) → Reads (present platform o)
  present-Reads none = fails (error platform.type_error)
  present-Reads (some a) = gives a

  load-Reads :
      (p : Payload) (path : String) (flag : Bool → Flags → Flags)
      (write : Value (json p) → Store → Store)
      → Reads (load platform p path flag write)
  unfolding load
  load-Reads p path flag write = in_turn (writes (write_flags (flag true))) (λ _.
      afterwards (write_flags (flag false)) (
        in_turn (admin_fetch-Reads p path no_body)
          (λ body. in_turn (present-Reads body) (λ r. writes (write r)))))

  load_sync_domains-Reads : Reads (load_sync_domains platform)
  unfolding load_sync_domains
  load_sync_domains-Reads =
      load-Reads sync_payload "/api/admin/sync/domains" flag_sync_domains put_sync_domains

  pub refresh_directory-Reads : Reads (refresh_directory platform)
  unfolding refresh_directory load_ous load_users load_groups
  refresh_directory-Reads = run_action-Reads _ (some "目录数据已刷新") (
      beside (load-Reads ous_payload "/api/admin/ous/tree" flag_ous put_ous) (
        beside (load-Reads users_payload "/api/admin/users" flag_users put_users) (
          beside (load-Reads groups_payload "/api/admin/groups" flag_groups put_groups)
            load_sync_domains-Reads)))

  pub refresh_clients-Reads : Reads (refresh_clients platform)
  unfolding refresh_clients load_oauth_clients
  refresh_clients-Reads =
      run_action-Reads _ _
        (load-Reads clients_payload "/api/admin/oauth-clients" flag_oauth_clients put_oauth_clients)

  pub refresh_domains-Reads : Reads (refresh_domains platform)
  unfolding refresh_domains load_domains
  refresh_domains-Reads = run_action-Reads _ _ (
      beside (load-Reads domains_payload "/api/admin/domains" flag_domains put_domains)
        load_sync_domains-Reads)

  next_employee_id-Reads : Reads (next_employee_id platform)
  unfolding next_employee_id
  next_employee_id-Reads =
      caught
        (in_turn (admin_fetch-Reads next_id_payload "/api/admin/users/next-employee-id" no_body)
          (λ body. in_turn (present-Reads body) (λ response. gives response.employee_id)))
        (λ e. in_turn (writes (notify (failure (request_error_message e "请求失败")))) (λ _. gives ""))

  pub start_user_editor-Reads : (user : Option UserRecord) → Reads (start_user_editor platform user)
  unfolding start_user_editor create_user
  start_user_editor-Reads none = looks (λ s.
      either (is_chosen s.refs.directory.selected_ou_id)
        (in_turn next_employee_id-Reads (λ id.
          either (is_chosen (some id)) (writes (on_page (open_user_editor none id))) (gives tt)))
        (gives tt))
  start_user_editor-Reads (some user) =
      writes (on_page (open_user_editor (some user) user.employee_id))

pub edit_ou_node-Reads : (key : String) → Reads (edit_ou_node key)
unfolding edit_ou_node
edit_ou_node-Reads key = writes _

pub copy_secret-Reads : Reads copy_secret
unfolding copy_secret copy_client_text
copy_secret-Reads = looks (λ s.
    either _
      (caught (in_turn (calls (write_clipboard _) refl) (λ _. writes (notify (success "客户端密钥已复制"))))
        (λ _. writes (notify (failure "复制失败，请手动复制客户端密钥"))))
      (writes (notify (failure "无法访问剪贴板，请手动复制客户端密钥"))))

pub copy_syncer_key-Reads : Reads copy_syncer_key
unfolding copy_syncer_key copy_key_text
copy_syncer_key-Reads = looks (λ s.
    either _
      (caught
        (in_turn (calls (write_clipboard _) refl) (λ _. writes (notify (success "Syncer key 已复制"))))
        (λ _. writes (notify (failure "复制失败，请手动复制 Syncer key"))))
      (writes (notify (failure "无法访问剪贴板，请手动复制 Syncer key"))))
