-- ===== src/ClientsPage/Editor.antt =====
-- A client that is opened in the editor and saved without a change.
use adscope_identity.Prelude.{
  String, true, Bool-cases, inl, inr, ◌≢◌, All-filter, ◌≡◌, refl, ap, ◌∙◌, none, some, List, [],
  ◌∷◌, map, filter, All,
}
use adscope_identity.Text.{trim, truthy, split_lines, join}
use adscope_identity.Text.Split.{IsLine, split_lines-join}
use adscope_identity.Text.Trim.{trim_idem}
use adscope_identity.Types.{OAuthClient}
use adscope_identity.Forms.Laws.{All-truthy, filter-truthy}
use adscope_identity.ClientsPage.{
  Page, OAuthClientEditorModel, create_request, editor_form_of, open_editor, redirect_uris_of,
  complaint, update_request, toggle_request,
}

-- A client as Core keeps it: a trimmed name and redirect URIs of one line each, none of them empty.
pub record IsClient (client : OAuthClient) : Type 0 where
  pub named : (trim client.name ≡ client.name) × (truthy client.name ≡ true)
  pub lines : All IsLine client.redirect_uris
  pub full : All (λ x. truthy x ≡ true) client.redirect_uris

read_uris :
    (uri : String) (uris : List String)
    → All IsLine (uri ∷ uris)
    → All (λ x. truthy x ≡ true) (uri ∷ uris)
    → filter truthy (map trim (split_lines (join "\n" (uri ∷ uris)))) ≡ uri ∷ uris
read_uris uri uris h k =
    ap (filter truthy) (split_lines-join uri uris h) ∙ All-truthy (uri ∷ uris) k

uris-join :
    (uris : List String)
    → uris ≢ []
    → All IsLine uris
    → All (λ x. truthy x ≡ true) uris
    → filter truthy (map trim (split_lines (join "\n" uris))) ≡ uris
uris-join [] ne h k = absurd (ne refl)
uris-join (uri ∷ uris) ne h k = read_uris uri uris h k

no_complaint :
    (message : String) (uris : List String)
    → uris ≢ []
    → elim uris [ [] ↦ some message | ◌∷◌ x xs ↦ none ] ≡ none
no_complaint message [] ne = absurd (ne refl)
no_complaint message (x ∷ xs) ne = refl

map-trim-trimmed : (xs : List String) → All (λ x. trim x ≡ x) (map trim xs)
map-trim-trimmed [] = tt
map-trim-trimmed (x ∷ xs) = (trim_idem x, map-trim-trimmed xs)

-- A client whose name is trimmed and whose redirect URIs, at least one, are single trimmed lines, none
-- of it empty: if it is opened in the editor and saved as it is, then there is no complaint, and the
-- request sends its own name, redirect URIs, scopes and state for its own identifier.
pub open_editor-unchanged :
    (p : Page) (client : OAuthClient)
    → IsClient client
    → client.redirect_uris ≢ []
    → ((open_editor (some client) p).selected_client_id ≡ some client.client_id)
      × (complaint (open_editor (some client) p).editor_form ≡ none)
      × (update_request (open_editor (some client) p).editor_form
          ≡ toggle_request client client.enabled)
unfolding open_editor editor_form_of complaint update_request redirect_uris_of toggle_request
open_editor-unchanged p client h ne =
    let read = uris-join client.redirect_uris ne h.lines h.full in
    (
      refl,
      rw (h.named.0, h.named.1, read) (no_complaint _ client.redirect_uris ne),
      rw (h.named.0, read),
    )

-- A form without a complaint is sent, by either request, with a name that is trimmed and not empty and
-- with at least one redirect URI, each trimmed and not empty.
pub complaint-none :
    (form : OAuthClientEditorModel)
    → complaint form ≡ none
    → (trim (update_request form).name ≡ (update_request form).name)
      × (truthy (update_request form).name ≡ true)
      × ((update_request form).redirect_uris ≢ [])
      × All (λ x. trim x ≡ x) (update_request form).redirect_uris
      × All (λ x. truthy x ≡ true) (update_request form).redirect_uris
      × ((create_request form).name ≡ (update_request form).name)
      × ((create_request form).redirect_uris ≡ (update_request form).redirect_uris)
unfolding complaint update_request create_request redirect_uris_of
complaint-none form h = elim (Bool-cases (truthy (trim form.name))) [
  | inl named ↦ (
    trim_idem form.name,
    named,
    λ empty. cc (rw (named, empty) at h),
    All-filter (λ x. trim x ≡ x) truthy (map trim (split_lines form.redirect_uris))
        (map-trim-trimmed (split_lines form.redirect_uris)),
    filter-truthy (map trim (split_lines form.redirect_uris)),
    refl,
    refl,
  )
  | inr nameless ↦ absurd (cc (rw nameless at h))
]
