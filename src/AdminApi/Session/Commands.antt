-- ===== src/AdminApi/Session/Commands.antt =====
-- The invariant of the session in the commands of the administrator: signing in and out,
-- refreshing the data, and changing the OAuth clients.
use adscope_identity.Prelude.{
  String, Bool, true, false, refl, inl, inr, Option, none, some, List, [], ◌∷◌, ◌++◌, map, not,
}
use adscope_identity.Text.{truthy, trim}
use adscope_identity.Types.{OAuthClient, CreateOAuthClientRequest, UpdateOAuthClientRequest}
use adscope_identity.Async.{error, return, throw, read, ◌>>=◌, call}
use adscope_identity.Async.Triples.{call-Keeps, read-Keeps}
use adscope_identity.UserApi.State.{Response, success, failure}
use adscope_identity.UserApi.{is_ok, is_denied, status_message}
use adscope_identity.AdminApi.State.{
  fetch, session_json, post_method, patch_method, delete_method, no_body, new_client,
  changed_client, created_payload, updated_payload, secret_payload, empty_payload,
}
use adscope_identity.AdminApi.{Action, Platform, track_request}
use adscope_identity.AdminApi.Signing.{
  restore_request, authenticate_request, logout_request, check_credential_response, begin_session,
  attempt, logout, load_directory, load_all, refresh_directory, refresh_all, restore_session,
  authenticate_steps, authenticate_token,
}
use adscope_identity.AdminApi.Clients.{
  clients_path, client_path, replace_client, remove_client, create_oauth_client, apply_update,
  update_oauth_client, delete_oauth_client, regenerate_oauth_client_secret,
}
use adscope_identity.AdminApi.Session.{
  weight, IsSession, IsPermitted, KeepsSession, beside, Preserves, clear_session-Preserves,
  notify-Preserves, notify_if-Preserves, write_content-Preserves, in_turn, caught, gives, fails,
  either, afterwards, changes, track_request-Keeps,
}
use adscope_identity.AdminApi.Session.Operations.{
  admin_fetch-Keeps, run_action-Keeps, present-Keeps, load_domains-Keeps, load_ous-Keeps,
  load_users-Keeps, load_groups-Keeps, load_sync_domains-Keeps, load_oauth_clients-Keeps,
}

begin_session-Preserves : (csrf : String) → Preserves (begin_session csrf)
begin_session-Preserves csrf n s h = record { counted = h.counted; guarded = inl refl }

session_json-Keeps : KeepsSession 0 (call session_json)
session_json-Keeps = call-Keeps weight IsSession IsPermitted session_json (λ m s j. tt)

attempt-Keeps : (t : Action Response) → KeepsSession 0 t → KeepsSession 0 (attempt t)
attempt-Keeps t h = caught (in_turn h (λ _. gives tt)) (λ _. gives tt)

logout_call-Keeps : KeepsSession 1 (read >>= λ s. call (fetch (logout_request s.csrf_token)))
logout_call-Keeps = record {
  ensures = λ k h s b j. (inl (refl, inr (inr (refl, refl))), j, λ o t d. h o t d);
}

pub logout-Keeps : KeepsSession 0 logout
unfolding logout
logout-Keeps = read-Keeps weight IsSession IsPermitted 0 _ (λ s.
    either (not s.authenticated) (gives true) (
      in_turn
        (afterwards (attempt-Keeps _ (track_request-Keeps _ logout_call-Keeps))
          clear_session-Preserves)
        (λ _. in_turn (changes (notify-Preserves (success "已退出管理控制台"))) (λ _. gives true))))

check_credential_response-Keeps : (r : Response) → KeepsSession 0 (check_credential_response r)
unfolding check_credential_response
check_credential_response-Keeps r =
    either (is_ok r.status) (gives tt)
      (either (is_denied r.status) (fails (error "管理凭证无效")) (fails (error (status_message r))))

restore_call-Keeps : KeepsSession 0 (track_request (call (fetch restore_request)))
restore_call-Keeps = track_request-Keeps _ (
    call-Keeps weight IsSession IsPermitted (fetch restore_request)
      (λ m s j. inl (refl, inl (refl, refl))))

authenticate_call-Keeps :
    (token : String) → KeepsSession 0 (track_request (call (fetch (authenticate_request token))))
authenticate_call-Keeps token = track_request-Keeps _ (
    call-Keeps weight IsSession IsPermitted (fetch (authenticate_request token))
      (λ m s j. inl (refl, inr (inl (refl, refl)))))

module _ (platform : Platform) where
  pub load_directory-Keeps : KeepsSession 0 (load_directory platform)
  unfolding load_directory
  load_directory-Keeps =
      beside (load_ous-Keeps platform)
        (beside (load_users-Keeps platform) (load_groups-Keeps platform))

  pub load_all-Keeps : KeepsSession 0 (load_all platform)
  unfolding load_all
  load_all-Keeps = beside load_directory-Keeps (
      beside (load_domains-Keeps platform)
        (beside (load_sync_domains-Keeps platform) (load_oauth_clients-Keeps platform)))

  pub refresh_directory-Keeps : KeepsSession 0 (refresh_directory platform)
  unfolding refresh_directory
  refresh_directory-Keeps = run_action-Keeps _ (some "目录数据已刷新") (
      beside (load_ous-Keeps platform) (
        beside (load_users-Keeps platform)
          (beside (load_groups-Keeps platform) (load_sync_domains-Keeps platform))))

  pub refresh_all-Keeps : KeepsSession 0 (refresh_all platform)
  unfolding refresh_all
  refresh_all-Keeps = run_action-Keeps (load_all platform) (some "数据已刷新") load_all-Keeps

  pub restore_session-Keeps : KeepsSession 0 (restore_session platform)
  unfolding restore_session
  restore_session-Keeps =
      caught
        (in_turn restore_call-Keeps (λ r.
          either (is_ok r.status)
            (in_turn session_json-Keeps (λ payload.
              in_turn (changes (begin_session-Preserves payload.csrf_token))
                (λ _. in_turn load_all-Keeps (λ _. gives true))))
            (in_turn (changes clear_session-Preserves) (λ _. gives false))))
        (λ _. in_turn (changes clear_session-Preserves) (λ _. gives false))

  authenticate_steps-Keeps :
      (token : String) (b : Bool) → KeepsSession 0 (authenticate_steps platform token b)
  unfolding authenticate_steps
  authenticate_steps-Keeps token b = in_turn (authenticate_call-Keeps token) (λ r.
      in_turn (check_credential_response-Keeps r) (λ _. in_turn session_json-Keeps (λ payload.
        in_turn (changes (begin_session-Preserves payload.csrf_token)) (λ _.
          in_turn load_all-Keeps (λ _.
            in_turn (changes (notify_if-Preserves b (success "已进入管理控制台"))) (λ _. gives true))))))

  pub authenticate_token-Keeps :
      (token : String) (b : Bool) → KeepsSession 0 (authenticate_token platform token b)
  unfolding authenticate_token
  authenticate_token-Keeps token b =
      either (not (truthy (trim token)))
        (in_turn (changes (notify-Preserves (failure "请输入管理凭证"))) (λ _. gives false))
        (caught (authenticate_steps-Keeps (trim token) b) (λ e.
          in_turn (changes (λ n s h. record { counted = h.counted; guarded = inr refl }))
            (λ _. gives false)))

  pub create_oauth_client-Keeps :
      (r : CreateOAuthClientRequest) → KeepsSession 0 (create_oauth_client platform r)
  unfolding create_oauth_client
  create_oauth_client-Keeps r =
      in_turn (admin_fetch-Keeps created_payload clients_path post_method (new_client r)) (λ body.
        in_turn (present-Keeps platform body) (λ a.
          in_turn
            (changes (
              write_content-Preserves
                (λ d. record d { oauth_clients = d.oauth_clients ++ a.client ∷ [] })))
            (λ _. gives a)))

  none_or_fails :
      (clients : List OAuthClient)
      → KeepsSession {A = Option OAuthClient} 0
          (elim clients [ [] ↦ return none | ◌∷◌ client cs ↦ throw (error platform.type_error) ])
  none_or_fails [] = gives none
  none_or_fails (client ∷ cs) = fails (error platform.type_error)

  apply_update-Keeps : (o : Option OAuthClient) → KeepsSession 0 (apply_update platform o)
  unfolding apply_update
  apply_update-Keeps none =
      read-Keeps weight IsSession IsPermitted 0 _ (λ s. none_or_fails s.content.oauth_clients)
  apply_update-Keeps (some a) =
      in_turn
        (changes (
          write_content-Preserves
            (λ d. record d { oauth_clients = map (replace_client a) d.oauth_clients })))
        (λ _. gives (some a))

  pub update_oauth_client-Keeps :
      (client_id : String) (r : UpdateOAuthClientRequest)
      → KeepsSession 0 (update_oauth_client platform client_id r)
  unfolding update_oauth_client
  update_oauth_client-Keeps client_id r =
      in_turn
        (admin_fetch-Keeps updated_payload (client_path platform client_id) patch_method
          (changed_client r))
        apply_update-Keeps

  pub delete_oauth_client-Keeps :
      (client_id : String) → KeepsSession 0 (delete_oauth_client platform client_id)
  unfolding delete_oauth_client
  delete_oauth_client-Keeps client_id =
      in_turn
        (admin_fetch-Keeps empty_payload (client_path platform client_id) delete_method no_body)
        (λ _. changes (
          write_content-Preserves
            (λ d. record d { oauth_clients = remove_client client_id d.oauth_clients })))

  pub regenerate_oauth_client_secret-Keeps :
      (client_id : String) → KeepsSession 0 (regenerate_oauth_client_secret platform client_id)
  unfolding regenerate_oauth_client_secret
  regenerate_oauth_client_secret-Keeps client_id =
      admin_fetch-Keeps secret_payload _ post_method no_body
