-- ===== src/ClientsPage/View/Held.antt =====
-- What portal/web/app/pages/admin/clients.vue offers while a save runs.
use adscope_identity.Prelude.{
  String, ℕ, Bool, true, ◌≡◌, refl, List, [], ◌∷◌, All-append, Option, none, some, ◌&&◌,
}
use adscope_identity.Types.{
  OAuthClientSecretResponse, OAuthClient, openid, profile, email, phone, OAuthScope,
}
use adscope_identity.View.{Element, for_each}
use adscope_identity.View.Laws.{All-if, All-when, All-for_each, AllHeld, AllHeld-of_true}
use adscope_identity.AdminApi.State.{Store}
use adscope_identity.ClientsPage.{Page, busy, is_chosen, OAuthClientEditorModel}
use adscope_identity.ClientsPage.View.{
  Intent, changes, client_row, client_table, client_editor, scope_box, secret_shown, secret_or,
  drawer_content, drawer, shows_editor, is_web, view,
}

abbrev Held : List (Element Intent) → Type 0
Held elements = AllHeld changes true elements

client_row-Held : (b : Bool) (client : OAuthClient) → b ≡ true → Held (client_row b client)
unfolding client_row
client_row-Held b client e = (refl, (refl, (e, (e, tt))))

client_table-Held :
    (loading b : Bool) (clients : List OAuthClient)
    → b ≡ true
    → Held (client_table loading b clients)
unfolding client_table
client_table-Held loading b clients e =
    (refl, All-for_each _ clients (client_row b) (λ client. client_row-Held b client e))

scope_box-Held :
    (b : Bool) (model : OAuthClientEditorModel) (scope : OAuthScope)
    → Held (scope_box b model scope)
unfolding scope_box
scope_box-Held b model scope = (refl, tt)

client_editor-Held :
    (id : Option String) (b : Bool) (model : OAuthClientEditorModel)
    → b ≡ true
    → Held (client_editor id b model)
unfolding client_editor
client_editor-Held id b model e = (
  refl,
  All-append _ _ _ (All-when _ (is_chosen id) _ (refl, tt)) (
    refl,
    (
      refl,
      (
        refl,
        All-append _ (for_each (openid ∷ profile ∷ email ∷ phone ∷ []) (scope_box b model)) _
            (All-for_each _ (openid ∷ profile ∷ email ∷ phone ∷ []) (scope_box b model)
              (scope_box-Held b model))
            (refl, All-when _ (is_chosen id && is_web model.client_type) _ (e, tt)),
      ),
    ),
  ),
)

secret_or-Held :
    (o : Option OAuthClientSecretResponse) (other : List (Element Intent))
    → Held other
    → Held (secret_or o other)
unfolding secret_shown
secret_or-Held none other h = h
secret_or-Held (some response) other h = (refl, (refl, (refl, (refl, (refl, tt)))))

drawer_content-Held : (p : Page) → p.saving ≡ true → Held (drawer_content p)
drawer_content-Held p e =
    let h = client_editor-Held p.selected_client_id p.saving p.editor_form e in
    All-if _ (shows_editor p.drawer_view) _ _ h (secret_or-Held p.shown_secret _ h)

drawer-Held : (p : Page) → p.saving ≡ true → Held (drawer p)
unfolding drawer
drawer-Held p e = All-when _ p.drawer_open _ (
  refl,
  All-append _ (drawer_content p) _ (drawer_content-Held p e)
      (refl, All-when _ (shows_editor p.drawer_view) _ (e, tt)),
)

busy-saving : (pending : ℕ) (p : Page) → p.saving ≡ true → busy pending p ≡ true
busy-saving pending p e = rw e refl

-- While a save runs, every button of the page that would send a change to the server is disabled, and
-- so is every submit button.
pub view-Held : (s : Store) → AllHeld changes s.refs.clients.saving (view s)
unfolding view
view-Held s = AllHeld-of_true changes s.refs.clients.saving (view s) (λ e.
    let b = busy s.pending s.refs.clients in
    let f = busy-saving s.pending s.refs.clients e in
    (
      refl,
      (
        refl,
        All-append _ (client_table s.flags.clients_loading b s.content.oauth_clients) _
            (client_table-Held s.flags.clients_loading b s.content.oauth_clients f)
            (drawer-Held s.refs.clients e),
      ),
    ))
