-- ===== src/ClientsPage/View.antt =====
-- What portal/web/app/pages/admin/clients.vue shows, with its table
-- portal/web/app/components/oauth/OAuthClientTable.vue and its editor
-- portal/web/app/components/oauth/OAuthClientEditor.vue.
pub mod Held
pub mod Started
use adscope_identity.Prelude.{
  String, Bool, true, false, not, ◌&&◌, ◌||◌, if◌then◌else◌, Option, none, some, or_else, List, [],
  ◌∷◌, ◌++◌, map,
}
use adscope_identity.Text.{truthy, join}
use adscope_identity.Types.{
  OAuthClient, OAuthClientType, web, desktop, OAuthScope, openid, profile, email, phone,
  OAuthClientSecretResponse,
}
use adscope_identity.Async.{◌>>=◌, return, modify}
use adscope_identity.View.{
  SelectOption, Element, title, words, button, form, submit, input, toggle, choice, table,
  plain_row, when, for_each,
}
use adscope_identity.AdminApi.State.{Store}
use adscope_identity.AdminApi.{Action, Platform}
use adscope_identity.ClientsPage.{
  Page, OAuthClientEditorModel, DrawerView, editor, secret, busy, drawer_title, is_chosen,
  open_editor, redirect_summary,
}
use adscope_identity.ClientsPage.Programs.{
  on_page, close_drawer, save_client, toggle_client, remove_client, regenerate_secret,
  refresh_clients, copy_secret,
}

-- What the handlers of the template do.
pub data Intent : Type 0 where
  refreshes creates closes saves regenerates copies : Intent
  edits toggles removes : OAuthClient → Intent

-- Whether a handler sends a change to the server.
abbrev pub changes : Intent → Bool
changes saves = true
changes regenerates = true
changes (toggles client) = true
changes (removes client) = true
changes _ = false

unfoldable pub perform : Platform → Intent → Action (Unit {0})
perform platform refreshes = refresh_clients platform
perform platform creates = modify (on_page (open_editor none))
perform platform closes = modify (on_page close_drawer)
perform platform saves = save_client platform
perform platform regenerates = regenerate_secret platform
perform platform copies = copy_secret
perform platform (edits client) = modify (on_page (open_editor (some client)))
perform platform (toggles client) = toggle_client platform client
perform platform (removes client) = remove_client platform client

abbrev pub scope_text : OAuthScope → String
scope_text openid = "openid"
scope_text profile = "profile"
scope_text email = "email"
scope_text phone = "phone"

abbrev pub is_web : OAuthClientType → Bool
is_web web = true
is_web desktop = false

-- The row of a client, and its buttons.
unfoldable pub client_row : Bool → OAuthClient → List (Element Intent)
client_row busy client =
    plain_row (
      client.name
      ∷ join " " (map scope_text client.allowed_scopes)
      ∷ client.client_id
      ∷ (if is_web client.client_type then "Web" else "Desktop")
      ∷ (if client.enabled then "启用" else "停用")
      ∷ redirect_summary client
      ∷ [])
    ∷ button "编辑应用" busy (edits client)
    ∷ button (if client.enabled then "停用应用" else "启用应用") busy (toggles client)
    ∷ button "删除应用" busy (removes client)
    ∷ []

unfoldable pub client_table : Bool → Bool → List OAuthClient → List (Element Intent)
client_table loading busy clients =
    table "还没有接入应用" loading ("名称" ∷ "Client ID" ∷ "类型" ∷ "状态" ∷ "Redirect URI" ∷ "操作" ∷ [])
    ∷ for_each clients (client_row busy)

abbrev pub type_options : List SelectOption
type_options =
    record { value = "web"; label = "Web"; disabled = false }
    ∷ record { value = "desktop"; label = "Desktop"; disabled = false }
    ∷ []

abbrev pub scope_label : OAuthScope → String
scope_label openid = "OpenID（必选）"
scope_label profile = "用户资料"
scope_label email = "邮箱"
scope_label phone = "电话"

abbrev pub is_scope : OAuthScope → OAuthScope → Bool
is_scope openid openid = true
is_scope profile profile = true
is_scope email email = true
is_scope phone phone = true
is_scope _ _ = false

abbrev pub allows : OAuthScope → List OAuthScope → Bool
allows scope [] = false
allows scope (s ∷ scopes) = is_scope scope s || allows scope scopes

unfoldable pub scope_box : Bool → OAuthClientEditorModel → OAuthScope → List (Element Intent)
scope_box saving model scope =
    toggle (scope_label scope) (allows scope model.allowed_scopes) (is_scope scope openid || saving)
    ∷ []

-- `OAuthClientEditor` for the identifier that is edited.
unfoldable pub client_editor : Option String → Bool → OAuthClientEditorModel → List (Element Intent)
client_editor editing_id saving model =
    form "oauth-client-form" saves
      ∷ when (is_chosen editing_id) (input "Client ID" (or_else editing_id "") false true ∷ [])
    ++ (input "名称" model.name true false
          ∷ choice "类型" (if is_web model.client_type then "web" else "desktop") false
              (is_chosen editing_id) type_options
          ∷ input "Redirect URI" model.redirect_uris true false
          ∷ for_each (openid ∷ profile ∷ email ∷ phone ∷ []) (scope_box saving model)
        ++ (toggle "启用应用" model.enabled saving
            ∷ when (is_chosen editing_id && is_web model.client_type)
                (button "重新生成密钥" saving regenerates ∷ [])))

-- The secret, once.
unfoldable pub secret_shown : OAuthClientSecretResponse → List (Element Intent)
secret_shown response =
    title "客户端密钥仅显示一次"
    ∷ words "关闭后无法再次查看，需要重新生成密钥。"
    ∷ input "Client ID" response.client_id false true
    ∷ input "Client Secret" response.client_secret false true
    ∷ button "复制密钥" false copies
    ∷ []

abbrev pub shows_editor : DrawerView → Bool
shows_editor editor = true
shows_editor secret = false

-- `v-if="… && secret"`, and `v-else`.
abbrev pub secret_or :
    Option OAuthClientSecretResponse → List (Element Intent) → List (Element Intent)
secret_or none other = other
secret_or (some response) other = secret_shown response

abbrev pub drawer_content : Page → List (Element Intent)
drawer_content p =
    let other = client_editor p.selected_client_id p.saving p.editor_form in
    if shows_editor p.drawer_view then other else secret_or p.shown_secret other

unfoldable pub drawer : Page → List (Element Intent)
drawer p = when p.drawer_open (
    title (drawer_title p) ∷ drawer_content p
    ++ (button (if shows_editor p.drawer_view then "取消" else "关闭") p.saving closes
        ∷ when (shows_editor p.drawer_view) (submit "保存" p.saving "oauth-client-form" ∷ [])))

-- The buttons in the header of the page.
abbrev pub header : Bool → List (Element Intent)
header busy = button "刷新" false refreshes ∷ button "新建" busy creates ∷ []

unfoldable pub view : Store → List (Element Intent)
unfolding drawer client_table client_editor secret_shown scope_box
view s =
    let p = s.refs.clients in
    let blocked = busy s.pending p in
    header blocked
    ++ (client_table s.flags.clients_loading blocked s.content.oauth_clients ++ drawer p)
