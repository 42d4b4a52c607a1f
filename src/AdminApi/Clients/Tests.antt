-- ===== src/AdminApi/Clients/Tests.antt =====
-- The operations on OAuth clients with concrete answers.
use adscope_identity.Prelude.{◌≡◌, refl, true, false, some, [], ◌∷◌}
use adscope_identity.Types.{
  OAuthClient, CreateOAuthClientRequest, UpdateOAuthClientRequest, web, openid,
}
use adscope_identity.Async.{Outcome, ok, err, thrown, start_task}
use adscope_identity.Async.Alone.{alone}
use adscope_identity.AdminApi.State.{
  Call, Value, fetch, json, created_payload, updated_payload, session_json, confirm,
  write_clipboard,
}
use adscope_identity.AdminApi.{
  write_content, admin_fetch, track_request, check_admin_response, read_body,
}
use adscope_identity.AdminApi.Samples.{browser, signed_in, wiki}
use adscope_identity.AdminApi.Clients.{
  create_oauth_client, update_oauth_client, delete_oauth_client,
}
use adscope_identity.AdminApi.Clients.Refinement.{
  Ended, Deleted, Created, Updated, delete_oauth_client-refines, create_oauth_client-refines,
  update_oauth_client-refines,
}

abbrev mail : OAuthClient
mail = record wiki { client_id = "mail"; name = "Mail" }

-- Core registers a client, or renames the one that is there, and answers a removal without a body.
abbrev answers : (c : Call) → Outcome (Value c)
answers (fetch r) = elim r.json_content [
  | true ↦ ok (record { status = 200; status_text = "OK" })
  | false ↦ ok (record { status = 204; status_text = "No Content" })
]
answers (json created_payload) = ok (record { client = mail; client_secret = some "s3cret" })
answers (json updated_payload) = ok (record wiki { name = "Handbook" })
answers (json _) = err thrown
answers session_json = err thrown
answers (confirm message) = ok true
answers (write_clipboard text) = ok tt

delete_oauth_client-refines_example :
    Ended answers
      (Deleted answers "wiki" signed_in.content)
      signed_in.content
      (alone answers (start_task (delete_oauth_client browser "wiki")) signed_in)
delete_oauth_client-refines_example = delete_oauth_client-refines answers browser "wiki" signed_in

abbrev create_mail : CreateOAuthClientRequest
create_mail = record {
  name = "Mail";
  client_type = web;
  redirect_uris = "https://mail.example.com/callback" ∷ [];
  allowed_scopes = openid ∷ [];
  enabled = true;
}

create_oauth_client-refines_example :
    Ended answers
      (Created answers signed_in.content)
      signed_in.content
      (alone answers (start_task (create_oauth_client browser create_mail)) signed_in)
create_oauth_client-refines_example =
    create_oauth_client-refines answers browser create_mail signed_in

abbrev rename_wiki : UpdateOAuthClientRequest
rename_wiki = record {
  name = "Handbook";
  redirect_uris = "https://wiki.example.com/callback" ∷ [];
  allowed_scopes = openid ∷ [];
  enabled = true;
}

update_oauth_client-refines_example :
    Ended answers
      (Updated answers signed_in.content)
      signed_in.content
      (alone answers (start_task (update_oauth_client browser "wiki" rename_wiki)) signed_in)
update_oauth_client-refines_example =
    update_oauth_client-refines answers browser "wiki" rename_wiki signed_in

-- The only client is deleted.
deletes_wiki :
    alone answers (start_task (delete_oauth_client browser "wiki")) signed_in
    ≡ some (ok tt, write_content (λ d. record d { oauth_clients = [] }) signed_in)
unfolding alone delete_oauth_client admin_fetch track_request check_admin_response read_body
deletes_wiki = refl
