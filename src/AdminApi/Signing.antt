-- ===== src/AdminApi/Signing.antt =====
-- portal/web/app/composables/useAdminApi.ts: the loads beside one another, and the start and the end
-- of a session.
use adscope_identity.Prelude.{String, Bool, true, false, not, if◌then◌else◌, none, some}
use adscope_identity.Text.{trim, truthy}
use adscope_identity.Async.{
  error, return, throw, ◌>>=◌, ◌>>◌, catch, finally, read, modify, call, all_of,
}
use adscope_identity.UserApi.State.{success, failure, Response}
use adscope_identity.UserApi.{is_ok, is_denied, status_message, request_error_message}
use adscope_identity.AdminApi.State.{
  Store, get_method, post_method, delete_method, no_body, credential, Request, fetch, session_json,
}
use adscope_identity.AdminApi.{Action, Platform, clear_session, notify, track_request, run_action}
use adscope_identity.AdminApi.Loads.{
  load_domains, load_ous, load_users, load_groups, load_sync_domains, load_oauth_clients,
}

abbrev pub restore_request : Request
restore_request = record {
  method = get_method;
  path = "/api/admin/session";
  csrf = none;
  json_content = false;
  body = no_body;
}

abbrev pub authenticate_request : String → Request
authenticate_request token = record {
  method = post_method;
  path = "/api/admin/session";
  csrf = none;
  json_content = true;
  body = credential token;
}

abbrev pub logout_request : String → Request
logout_request csrf = record {
  method = delete_method;
  path = "/api/admin/session";
  csrf = some csrf;
  json_content = false;
  body = no_body;
}

-- `if (!response.ok) { throw … }` of `authenticateToken`.
unfoldable pub check_credential_response : Response → Action (Unit {0})
check_credential_response response =
    if is_ok response.status
    then return tt
    else if is_denied response.status
    then throw (error "管理凭证无效")
    else throw (error (status_message response))

-- The token of a session that begins.
abbrev pub begin_session : String → Store → Store
begin_session csrf s = record s { csrf_token = csrf; authenticated = true }

-- `try { t } catch {}`
abbrev pub attempt : Action Response → Action (Unit {0})
attempt t = catch (t >>= λ _. return tt) (λ _. return tt)

unfoldable pub logout : Action Bool
unfolding track_request
logout = do
  s ← read
  if not s.authenticated then return true else (do
    finally (attempt (track_request (do s ← read; call (fetch (logout_request s.csrf_token)))))
        clear_session
    modify (notify (success "已退出管理控制台"))
    return true)

module _ (platform : Platform) where
  unfoldable pub load_directory : Action (Unit {0})
  unfolding load_ous load_users load_groups
  load_directory = all_of (load_ous platform) (all_of (load_users platform) (load_groups platform))

  unfoldable pub load_all : Action (Unit {0})
  unfolding load_directory load_domains load_sync_domains load_oauth_clients
  load_all = all_of load_directory (
      all_of (load_domains platform)
        (all_of (load_sync_domains platform) (load_oauth_clients platform)))

  unfoldable pub refresh_directory : Action (Unit {0})
  unfolding run_action load_ous load_users load_groups load_sync_domains
  refresh_directory =
      run_action
        (all_of (load_ous platform) (
          all_of (load_users platform)
            (all_of (load_groups platform) (load_sync_domains platform))))
        (some "目录数据已刷新")

  unfoldable pub refresh_all : Action (Unit {0})
  unfolding run_action load_all
  refresh_all = run_action load_all (some "数据已刷新")

  unfoldable pub restore_session : Action Bool
  unfolding track_request load_all
  restore_session =
      catch
        (do
          response ← track_request (call (fetch restore_request))
          if is_ok response.status
              then (do
                payload ← call session_json
                modify (begin_session payload.csrf_token)
                load_all
                return true)
              else (modify clear_session >> return false))
        (λ _. modify clear_session >> return false)

  -- The body of the `try` block of `authenticateToken`.
  unfoldable pub authenticate_steps : String → Bool → Action Bool
  unfolding track_request check_credential_response load_all
  authenticate_steps token show_success = do
    response ← track_request (call (fetch (authenticate_request token)))
    check_credential_response response
    payload ← call session_json
    modify (begin_session payload.csrf_token)
    load_all
    modify (λ s. if show_success then notify (success "已进入管理控制台") s else s)
    return true

  unfoldable pub authenticate_token : String → Bool → Action Bool
  unfolding authenticate_steps request_error_message
  authenticate_token token show_success =
      let trimmed = trim token in
      if not (truthy trimmed)
      then (modify (notify (failure "请输入管理凭证")) >> return false)
      else catch (authenticate_steps trimmed show_success) (λ e. do
        modify (λ s. notify (failure (request_error_message e "管理凭证无效")) (clear_session s))
        return false)
