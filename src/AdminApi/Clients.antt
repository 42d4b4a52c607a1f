-- ===== src/AdminApi/Clients.antt =====
-- portal/web/app/composables/useAdminApi.ts: the operations on OAuth clients.
pub mod Registry
pub mod Fetched
pub mod Refinement
pub mod Tests
use Prim.Native.String
use adscope_identity.Prelude.{
  String, not, ◌==◌, string_equality, if◌then◌else◌, Option, none, some, List, [], ◌∷◌, ◌++◌, map,
  filter,
}
use adscope_identity.Types.{
  OAuthClient, CreateOAuthClientRequest, UpdateOAuthClientRequest, OAuthClientCreateResponse,
  OAuthClientSecretResponse,
}
use adscope_identity.Async.{error, return, throw, ◌>>=◌, ◌>>◌, read, modify}
use adscope_identity.AdminApi.State.{
  post_method, patch_method, delete_method, no_body, new_client, changed_client, created_payload,
  updated_payload, secret_payload, empty_payload,
}
use adscope_identity.AdminApi.{Action, Platform, write_content, admin_fetch, present}

abbrev pub clients_path : String
clients_path = "/api/admin/oauth-clients"

abbrev pub replace_client : OAuthClient → OAuthClient → OAuthClient
replace_client response client = if client.client_id == response.client_id then response else client

abbrev pub remove_client : String → List OAuthClient → List OAuthClient
remove_client client_id clients = filter (λ client. not (client.client_id == client_id)) clients

module _ (platform : Platform) where
  abbrev pub client_path : String → String
  client_path client_id =
      String.◌++◌ clients_path (String.◌++◌ "/" (platform.encode_uri_component client_id))

  unfoldable pub create_oauth_client : CreateOAuthClientRequest → Action OAuthClientCreateResponse
  unfolding admin_fetch
  create_oauth_client request = do
    body ← admin_fetch created_payload clients_path post_method (new_client request)
    response ← present platform body
    modify
        (write_content (λ d. record d { oauth_clients = d.oauth_clients ++ response.client ∷ [] }))
    return response

  -- What `updateOAuthClient` does with the body; without one, the first client that is compared
  -- with it throws.
  unfoldable pub apply_update : Option OAuthClient → Action (Option OAuthClient)
  apply_update none = do
    s ← read
    elim s.content.oauth_clients [
      | [] ↦ return none
      | ◌∷◌ client clients ↦ throw (error platform.type_error)
    ]
  apply_update (some response) = do
    modify (
        write_content
          (λ d. record d { oauth_clients = map (replace_client response) d.oauth_clients }))
    return (some response)

  unfoldable pub update_oauth_client :
      String → UpdateOAuthClientRequest → Action (Option OAuthClient)
  unfolding admin_fetch apply_update
  update_oauth_client client_id request =
      admin_fetch updated_payload (client_path client_id) patch_method (changed_client request)
      >>= apply_update

  -- The body is not used; a body other than that of status 204 is read as one.
  unfoldable pub delete_oauth_client : String → Action (Unit {0})
  unfolding admin_fetch
  delete_oauth_client client_id = do
    _ ← admin_fetch empty_payload (client_path client_id) delete_method no_body
    modify
        (write_content (λ d. record d { oauth_clients = remove_client client_id d.oauth_clients }))

  unfoldable pub regenerate_oauth_client_secret : String → Action (Option OAuthClientSecretResponse)
  unfolding admin_fetch
  regenerate_oauth_client_secret client_id =
      admin_fetch secret_payload (String.◌++◌ (client_path client_id) "/secret") post_method no_body
