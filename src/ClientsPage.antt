-- ===== src/ClientsPage.antt =====
-- portal/web/app/pages/admin/clients.vue: the editor of OAuth clients, and how
-- portal/web/app/components/oauth/OAuthClientTable.vue shows their redirect URIs. Its handlers
-- stand in Programs.
pub mod Editor
pub mod Programs
pub mod View
pub mod Session
pub mod Tests
use Prim.Native.String
use adscope_identity.Prelude.{
  ℕ, ◌-◌, ltb, String, Bool, true, false, if◌then◌else◌, Option, none, some, List, [], ◌∷◌, map,
  filter, length,
}
use adscope_identity.Text.{trim, truthy, split_lines, join}
use adscope_identity.Text.Decimal.{decimal}
use adscope_identity.Types.{
  OAuthClient, OAuthClientType, web, OAuthScope, openid, OAuthClientSecretResponse,
  CreateOAuthClientRequest, UpdateOAuthClientRequest,
}

pub data DrawerView : Type 0 where
  editor secret : DrawerView

pub record OAuthClientEditorModel : Type 0 where
  pub name : String
  pub client_type : OAuthClientType
  pub redirect_uris : String
  pub allowed_scopes : List OAuthScope
  pub enabled : Bool

unfoldable pub blank_editor_form : OAuthClientEditorModel
blank_editor_form = record {
  name = "";
  client_type = web;
  redirect_uris = "";
  allowed_scopes = openid ∷ [];
  enabled = true;
}

-- The refs of the page.
pub record Page : Type 0 where
  pub drawer_open : Bool
  pub drawer_view : DrawerView
  pub selected_client_id : Option String
  pub saving : Bool
  pub shown_secret : Option OAuthClientSecretResponse
  pub editor_form : OAuthClientEditorModel

-- `busy`, for the number of requests in flight.
abbrev pub busy : ℕ → Page → Bool
busy pending p = if p.saving then true else ltb 0 pending

unfoldable pub drawer_title : Page → String
drawer_title p = elim p.drawer_view [
  | secret ↦ "客户端密钥"
  | editor ↦ elim p.selected_client_id [
    | none ↦ "新建接入应用"
    | some id ↦ if truthy id then "编辑接入应用" else "新建接入应用"
  ]
]

-- The form for a client, or for a new one.
unfoldable pub editor_form_of : Option OAuthClient → OAuthClientEditorModel
editor_form_of none = blank_editor_form
editor_form_of (some client) = record {
  name = client.name;
  client_type = client.client_type;
  redirect_uris = join "\n" client.redirect_uris;
  allowed_scopes = client.allowed_scopes;
  enabled = client.enabled;
}

-- A chosen identifier: neither `null` nor empty.
abbrev pub is_chosen : Option String → Bool
is_chosen none = false
is_chosen (some id) = truthy id

abbrev pub client_id_of : Option OAuthClient → Option String
client_id_of none = none
client_id_of (some client) = some client.client_id

unfoldable pub open_editor : Option OAuthClient → Page → Page
open_editor client p = record p {
  selected_client_id = client_id_of client;
  shown_secret = none;
  drawer_view = editor;
  editor_form = editor_form_of client;
  drawer_open = true;
}

-- `redirectUris`
unfoldable pub redirect_uris_of : OAuthClientEditorModel → List String
redirect_uris_of form = filter truthy (map trim (split_lines form.redirect_uris))

-- What `saveClient` complains about before it sends anything.
unfoldable pub complaint : OAuthClientEditorModel → Option String
unfolding redirect_uris_of
complaint form =
    if truthy (trim form.name)
    then elim (redirect_uris_of form) [ [] ↦ some "请至少填写一个 Redirect URI" | ◌∷◌ uri uris ↦ none ]
    else some "请输入应用名称"

-- The requests that `saveClient` and `toggleClient` send.
unfoldable pub update_request : OAuthClientEditorModel → UpdateOAuthClientRequest
unfolding redirect_uris_of
update_request form = record {
  name = trim form.name;
  redirect_uris = redirect_uris_of form;
  allowed_scopes = form.allowed_scopes;
  enabled = form.enabled;
}

unfoldable pub create_request : OAuthClientEditorModel → CreateOAuthClientRequest
unfolding redirect_uris_of
create_request form = record {
  name = trim form.name;
  redirect_uris = redirect_uris_of form;
  allowed_scopes = form.allowed_scopes;
  enabled = form.enabled;
  client_type = form.client_type;
}

unfoldable pub toggle_request : OAuthClient → Bool → UpdateOAuthClientRequest
toggle_request client enabled = record {
  name = client.name;
  redirect_uris = client.redirect_uris;
  allowed_scopes = client.allowed_scopes;
  enabled = enabled;
}

-- `redirectSummary`
unfoldable pub redirect_summary : OAuthClient → String
redirect_summary client = elim client.redirect_uris [
  | [] ↦ "-"
  | ◌∷◌ first rest ↦
      if truthy first
      then (if ltb 0 (length rest)
          then String.◌++◌ first (String.◌++◌ "（另有 " (String.◌++◌ (decimal (length rest)) " 个）"))
          else first)
      else "-"
]
