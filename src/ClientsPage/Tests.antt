-- ===== src/ClientsPage/Tests.antt =====
-- An editor of OAuth clients with concrete data.
use adscope_identity.Prelude.{true, false, ◌≡◌, refl, ◌≢◌, none, some, [], ◌∷◌, All}
use adscope_identity.Text.{
  trim, truthy, trim_start, trim_end, blank, keep_end, split_lines, line_step, push_front,
}
use adscope_identity.Types.{OAuthClient, web, openid, email}
use adscope_identity.ClientsPage.{
  Page, OAuthClientEditorModel, editor, open_editor, redirect_uris_of, complaint, update_request,
  create_request, toggle_request,
}
use adscope_identity.ClientsPage.Editor.{IsClient, open_editor-unchanged, complaint-none}

abbrev wiki : OAuthClient
wiki = record {
  client_id = "wiki";
  name = "Wiki";
  client_type = web;
  redirect_uris = "https://wiki/a" ∷ "https://wiki/b" ∷ [];
  allowed_scopes = openid ∷ email ∷ [];
  enabled = true;
}

abbrev closed : Page
closed = record {
  drawer_open = false;
  drawer_view = editor;
  selected_client_id = none;
  saving = false;
  shown_secret = none;
  editor_form = record {
    name = "";
    client_type = web;
    redirect_uris = "";
    allowed_scopes = [];
    enabled = false;
  };
}

wiki-IsClient : IsClient wiki
unfolding trim trim_start trim_end blank keep_end
wiki-IsClient = record {
  named = (refl, refl);
  lines = ((refl, refl, refl), ((refl, refl, refl), tt));
  full = (refl, (refl, tt));
}

wiki_uris : wiki.redirect_uris ≢ []
wiki_uris = λ e. cc e

open_editor-unchanged_example :
    ((open_editor (some wiki) closed).selected_client_id ≡ some "wiki")
    × (complaint (open_editor (some wiki) closed).editor_form ≡ none)
    × (update_request (open_editor (some wiki) closed).editor_form ≡ toggle_request wiki true)
open_editor-unchanged_example = open_editor-unchanged closed wiki wiki-IsClient wiki_uris

abbrev typed : OAuthClientEditorModel
typed = record {
  name = " Wiki ";
  client_type = web;
  redirect_uris = "\n https://wiki/a \r\n\n";
  allowed_scopes = openid ∷ [];
  enabled = true;
}

typed_uris : redirect_uris_of typed ≡ "https://wiki/a" ∷ []
unfolding redirect_uris_of split_lines line_step push_front trim trim_start trim_end blank keep_end
typed_uris = refl

typed_accepted : complaint typed ≡ none
unfolding complaint redirect_uris_of split_lines line_step push_front trim trim_start trim_end blank
    keep_end
typed_accepted = refl

complaint-none_example :
    (trim (update_request typed).name ≡ (update_request typed).name)
    × (truthy (update_request typed).name ≡ true)
    × ((update_request typed).redirect_uris ≢ [])
    × All (λ x. trim x ≡ x) (update_request typed).redirect_uris
    × All (λ x. truthy x ≡ true) (update_request typed).redirect_uris
    × ((create_request typed).name ≡ (update_request typed).name)
    × ((create_request typed).redirect_uris ≡ (update_request typed).redirect_uris)
complaint-none_example = complaint-none typed typed_accepted
