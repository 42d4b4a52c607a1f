-- ===== src/ClientsPage/Session.antt =====
-- The programs of the page and the invariant of the administrator's session.
use adscope_identity.Prelude.{String, true, false, not, Option, none, some, or_else}
use adscope_identity.Types.{OAuthClient}
use adscope_identity.UserApi.State.{success, failure}
use adscope_identity.Async.{modify}
use adscope_identity.AdminApi.{Action, Platform, notify}
use adscope_identity.AdminApi.Session.{
  KeepsSession, Preserves, write_refs-Preserves, notify-Preserves, in_turn, caught, gives, either,
  afterwards, changes, reads, confirm-Keeps, write_clipboard-Keeps,
}
use adscope_identity.AdminApi.Session.Operations.{run_action-Keeps, load_oauth_clients-Keeps}
use adscope_identity.AdminApi.Session.Commands.{
  create_oauth_client-Keeps, update_oauth_client-Keeps, delete_oauth_client-Keeps,
  regenerate_oauth_client_secret-Keeps,
}
use adscope_identity.ClientsPage.{
  Page, is_chosen, complaint, update_request, create_request, toggle_request,
}
use adscope_identity.ClientsPage.Programs.{
  on_page, while_saving, set_saving, close_drawer, after_creation, show_answer, save_steps,
  save_valid, save_client, toggle_client, remove_client, regenerate_chosen, regenerate_secret,
  refresh_clients, copy_text, copy_secret,
}

on_page-Preserves : (f : Page → Page) → Preserves (on_page f)
on_page-Preserves f = write_refs-Preserves (λ r. record r { clients = f r.clients })

turns : (f : Page → Page) → KeepsSession 0 (modify (on_page f))
turns f = changes (on_page-Preserves f)

while_saving-Keeps : (t : Action (Unit {0})) → KeepsSession 0 t → KeepsSession 0 (while_saving t)
while_saving-Keeps t h =
    in_turn (turns (set_saving true)) (λ _. afterwards h (on_page-Preserves (set_saving false)))

module _ (platform : Platform) where
  save_steps-Keeps : (client_id : Option String) → KeepsSession 0 (save_steps platform client_id)
  unfolding save_steps
  save_steps-Keeps client_id = reads (λ s.
      either (is_chosen client_id)
        (in_turn
          (update_oauth_client-Keeps platform (or_else client_id "")
            (update_request s.refs.clients.editor_form))
          (λ _. turns close_drawer))
        (in_turn (create_oauth_client-Keeps platform (create_request s.refs.clients.editor_form))
          (λ response. turns (after_creation response))))

  save_valid-Keeps : (client_id : Option String) → KeepsSession 0 (save_valid platform client_id)
  unfolding save_valid
  save_valid-Keeps client_id =
      while_saving-Keeps _ (run_action-Keeps _ _ (save_steps-Keeps client_id))

  complained :
      (client_id o : Option String)
      → KeepsSession 0 (elim o [
        | some message ↦ modify (notify (failure message))
        | none ↦ save_valid platform client_id
      ])
  complained client_id none = save_valid-Keeps client_id
  complained client_id (some message) = changes (notify-Preserves (failure message))

  pub save_client-Keeps : KeepsSession 0 (save_client platform)
  unfolding save_client
  save_client-Keeps = reads (λ s.
      either s.refs.clients.saving (gives tt)
        (complained s.refs.clients.selected_client_id (complaint s.refs.clients.editor_form)))

  pub toggle_client-Keeps : (client : OAuthClient) → KeepsSession 0 (toggle_client platform client)
  unfolding toggle_client
  toggle_client-Keeps client = while_saving-Keeps _ (
      run_action-Keeps _ _ (
        in_turn
          (update_oauth_client-Keeps platform client.client_id
            (toggle_request client (not client.enabled)))
          (λ _. gives tt)))

  pub remove_client-Keeps : (client : OAuthClient) → KeepsSession 0 (remove_client platform client)
  unfolding remove_client
  remove_client-Keeps client = in_turn (confirm-Keeps _) (λ confirmed.
      either confirmed
        (while_saving-Keeps _
          (run_action-Keeps _ _ (delete_oauth_client-Keeps platform client.client_id)))
        (gives tt))

  regenerate_chosen-Keeps :
      (client_id : String) → KeepsSession 0 (regenerate_chosen platform client_id)
  unfolding regenerate_chosen
  regenerate_chosen-Keeps client_id = reads (λ s. in_turn (confirm-Keeps _) (λ confirmed.
      either confirmed
        (while_saving-Keeps _ (
          run_action-Keeps _ _ (
            in_turn (regenerate_oauth_client_secret-Keeps platform client_id)
              (λ response. turns (show_answer platform response)))))
        (gives tt)))

  pub regenerate_secret-Keeps : KeepsSession 0 (regenerate_secret platform)
  unfolding regenerate_secret
  regenerate_secret-Keeps = reads (λ s.
      either (is_chosen s.refs.clients.selected_client_id) (regenerate_chosen-Keeps _) (gives tt))

  pub refresh_clients-Keeps : KeepsSession 0 (refresh_clients platform)
  unfolding refresh_clients
  refresh_clients-Keeps = run_action-Keeps _ _ (load_oauth_clients-Keeps platform)

copy_text-Keeps : (value : String) → KeepsSession 0 (copy_text value)
unfolding copy_text
copy_text-Keeps value =
    caught
      (in_turn (write_clipboard-Keeps value) (λ _. changes (notify-Preserves (success "客户端密钥已复制"))))
      (λ _. changes (notify-Preserves (failure "复制失败，请手动复制客户端密钥")))

pub copy_secret-Keeps : KeepsSession 0 copy_secret
unfolding copy_secret
copy_secret-Keeps = reads (λ s.
    either (is_chosen _) (copy_text-Keeps _)
      (changes (notify-Preserves (failure "无法访问剪贴板，请手动复制客户端密钥"))))
