-- ===== src/ClientsPage/Programs.antt =====
-- portal/web/app/pages/admin/clients.vue: what the page does with the server, the dialog that asks for
-- a confirmation and the clipboard.
use Prim.Native.String
use adscope_identity.Prelude.{
  String, Bool, true, false, not, if◌then◌else◌, Option, none, some, or_else,
}
use adscope_identity.Text.{truthy}
use adscope_identity.Types.{OAuthClient, OAuthClientCreateResponse, OAuthClientSecretResponse}
use adscope_identity.Async.{return, ◌>>=◌, ◌>>◌, catch, finally, read, modify, call}
use adscope_identity.UserApi.State.{success, failure}
use adscope_identity.AdminApi.State.{Store, confirm, write_clipboard}
use adscope_identity.AdminApi.{Action, Platform, notify, run_action, write_refs}
use adscope_identity.AdminApi.Loads.{load_oauth_clients}
use adscope_identity.AdminApi.Clients.{
  create_oauth_client, update_oauth_client, delete_oauth_client, regenerate_oauth_client_secret,
}
use adscope_identity.ClientsPage.{
  Page, secret, is_chosen, complaint, update_request, create_request, toggle_request,
}

abbrev pub on_page : (Page → Page) → Store → Store
on_page f = write_refs (λ r. record r { clients = f r.clients })

abbrev pub set_saving : Bool → Page → Page
set_saving b p = record p { saving = b }

abbrev pub close_drawer : Page → Page
close_drawer p = record p { drawer_open = false }

-- `saving.value = true; try { … } finally { saving.value = false }`
abbrev pub while_saving : Action (Unit {0}) → Action (Unit {0})
while_saving t = modify (on_page (set_saving true)) >> finally t (on_page (set_saving false))

abbrev pub show_secret : OAuthClientSecretResponse → Page → Page
show_secret response p = record p { shown_secret = some response; drawer_view = secret }

-- What the page shows once a client was created: its secret, if there is one.
unfoldable pub after_creation : OAuthClientCreateResponse → Page → Page
after_creation response p =
    let q = record p { selected_client_id = some response.client.client_id } in
    elim response.client_secret [
      | none ↦ close_drawer q
      | some t ↦
          if truthy t
          then show_secret (record { client_id = response.client.client_id; client_secret = t }) q
          else close_drawer q
    ]

module _ (platform : Platform) where
  -- The action of `saveClient`, for the identifier that was selected when it started.
  unfoldable pub save_steps : Option String → Action (Unit {0})
  save_steps client_id = do
    s ← read
    if is_chosen client_id
        then (do
          _ ←
              update_oauth_client platform (or_else client_id "")
                (update_request s.refs.clients.editor_form)
          modify (on_page close_drawer))
        else (do
          response ← create_oauth_client platform (create_request s.refs.clients.editor_form)
          modify (on_page (after_creation response)))

  unfoldable pub save_valid : Option String → Action (Unit {0})
  save_valid client_id = while_saving (
      run_action (save_steps client_id)
        (some (if is_chosen client_id then "接入应用已更新" else "接入应用已创建")))

  unfoldable pub save_client : Action (Unit {0})
  save_client = do
    s ← read
    if s.refs.clients.saving then return tt else elim (complaint s.refs.clients.editor_form) [
      | some message ↦ modify (notify (failure message))
      | none ↦ save_valid s.refs.clients.selected_client_id
    ]

  unfoldable pub toggle_client : OAuthClient → Action (Unit {0})
  toggle_client client =
      let enabled = not client.enabled in
      while_saving (
        run_action
          (do
            _ ← update_oauth_client platform client.client_id (toggle_request client enabled)
            return tt)
          (some (if enabled then "接入应用已启用" else "接入应用已停用")))

  unfoldable pub remove_client : OAuthClient → Action (Unit {0})
  remove_client client = do
    confirmed ← call (confirm (String.◌++◌ "删除“" (String.◌++◌ client.name "”？")))
    if confirmed
        then while_saving
            (run_action (delete_oauth_client platform client.client_id) (some "接入应用已删除"))
        else return tt

  -- The answer of `regenerateOAuthClientSecret` is shown as it is, also where it is `undefined`.
  abbrev pub show_answer : Option OAuthClientSecretResponse → Page → Page
  show_answer response p = record p { shown_secret = response; drawer_view = secret }

  unfoldable pub regenerate_chosen : String → Action (Unit {0})
  regenerate_chosen client_id = do
    s ← read
    confirmed ←
        call
          (confirm (String.◌++◌ "为“" (String.◌++◌ s.refs.clients.editor_form.name "”生成新的客户端密钥？")))
    if confirmed
        then while_saving (
            run_action
              (do
                response ← regenerate_oauth_client_secret platform client_id
                modify (on_page (show_answer response)))
              none)
        else return tt

  unfoldable pub regenerate_secret : Action (Unit {0})
  regenerate_secret = do
    s ← read
    if is_chosen s.refs.clients.selected_client_id
        then regenerate_chosen (or_else s.refs.clients.selected_client_id "")
        else return tt

  unfoldable pub refresh_clients : Action (Unit {0})
  refresh_clients = run_action (load_oauth_clients platform) (some "接入应用已刷新")

-- `copySecret`, in a browser with a clipboard.
unfoldable pub copy_text : String → Action (Unit {0})
copy_text value =
    catch (do _ ← call (write_clipboard value); modify (notify (success "客户端密钥已复制")))
      (λ _. modify (notify (failure "复制失败，请手动复制客户端密钥")))

-- `secret.value?.client_secret`
abbrev pub secret_text : Option OAuthClientSecretResponse → Option String
secret_text none = none
secret_text (some response) = some response.client_secret

unfoldable pub copy_secret : Action (Unit {0})
copy_secret = do
  s ← read
  if is_chosen (secret_text s.refs.clients.shown_secret)
      then copy_text (or_else (secret_text s.refs.clients.shown_secret) "")
      else modify (notify (failure "无法访问剪贴板，请手动复制客户端密钥"))
