-- ===== src/AdminApi/Samples.antt =====
-- Concrete stores of the administrator.
use adscope_identity.Prelude.{true, false, none, [], ◌∷◌}
use adscope_identity.Types.{OAuthClient, web, openid}
use adscope_identity.ClientsPage.{editor, blank_editor_form}
use adscope_identity.Forms.{blank_ou_form, blank_user_form, blank_group_form, blank_domain_form}
use adscope_identity.AdminApi.State.{Store, Refs}
use adscope_identity.AdminApi.{Platform, write_content}
use adscope_identity.AdminApi.Signing.{begin_session}
use adscope_identity.AdminApi.Session.Reachable.{opened}

abbrev pub browser : Platform
browser = record { encode_uri_component = λ s. s; type_error = "undefined has no properties" }

-- No page is used yet.
abbrev pub idle : Refs
idle = record {
  clients = record {
    drawer_open = false;
    drawer_view = editor;
    selected_client_id = none;
    saving = false;
    shown_secret = none;
    editor_form = blank_editor_form;
  };
  directory = record {
    selected_ou_id = none;
    editor = none;
    saving = false;
    editing_ou_id = none;
    editing_user_id = none;
    editing_group_id = none;
    ou_form = blank_ou_form;
    user_form = blank_user_form;
    group_form = blank_group_form;
    reset_password_target = none;
    reset_password_value = "";
  };
  catalog = record {
    selected_domain_id = none;
    drawer_open = false;
    saving = false;
    syncer_key = none;
    domain_form = blank_domain_form;
  };
  shell = record { credential_draft = "" };
}

abbrev pub wiki : OAuthClient
wiki = record {
  client_id = "wiki";
  name = "Wiki";
  client_type = web;
  redirect_uris = "https://wiki.example.com/callback" ∷ [];
  allowed_scopes = openid ∷ [];
  enabled = true;
}

-- A session with one client.
abbrev pub signed_in : Store
signed_in =
    write_content (λ d. record d { oauth_clients = wiki ∷ [] })
      (begin_session "csrf" (opened idle).state)
