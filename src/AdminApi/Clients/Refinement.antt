-- ===== src/AdminApi/Clients/Refinement.antt =====
-- The operations on OAuth clients beside a map from identifiers to clients.
use adscope_identity.Prelude.{
  String, string_equality, ◌≡◌, ap, ◌∙◌, ◌⊎◌, inl, inr, Option, none, some, subst, sym, List, [],
  ◌∷◌, ◌++◌, map,
}
use adscope_identity.Types.{
  OAuthClient, CreateOAuthClientRequest, UpdateOAuthClientRequest, OAuthClientCreateResponse,
}
use adscope_identity.Async.{
  error, Outcome, ok, err, start_task, ended, return, throw, modify, ◌>>=◌, ◌>>◌,
}
use adscope_identity.Async.Alone.{
  alone, Does, return-Does, throw-Does, modify-Does, bind-Does, modify_then-Does, read_then-Does,
}
use adscope_identity.AdminApi.State.{
  Store, Data, created_payload, updated_payload, empty_payload, delete_method, patch_method,
  post_method, no_body, new_client, changed_client, Call, json, Value,
}
use adscope_identity.AdminApi.{Action, Platform, present, write_content}
use adscope_identity.AdminApi.Clients.{
  create_oauth_client, update_oauth_client, delete_oauth_client, apply_update, clients_path,
  client_path, replace_client, remove_client,
}
use adscope_identity.AdminApi.Clients.Fetched.{IsSpared, Fetched, admin_fetch-Does}
use adscope_identity.AdminApi.Clients.Registry.{
  Registry, registry, enter, renew, forget, registry-append, registry-replace_client,
  registry-remove_client,
}

-- The clients of the data are the map.
abbrev pub Has : Registry → Data → Type 0
Has m d = (id : String) → registry d.oauth_clients id ≡ m id

module _ (answers : (c : Call) → Outcome (Value c)) where
  -- After a success `R` holds, and after a failure the data is as before or empty.
  abbrev Leaves : {A : Type 0} → (Data → Type 0) → Data → Outcome A → Store → Type 0
  Leaves R d (ok a) u = R u.content
  Leaves R d (err e) u = IsSpared d u.content

  -- A program ends; where it succeeds, `R` holds, and where it fails, the data is as before or empty.
  abbrev pub Ended : (Data → Type 0) → Data → Option (Outcome (Unit {0}) × Store) → Type 0
  Ended R d none = ⊥
  Ended R d (some (ok a, u)) = R u.content
  Ended R d (some (err e, u)) = IsSpared d u.content

  module _ (R : Data → Type 0) where
    ended_with :
        {A : Type 0} (d : Data) (o : Outcome A) (u : Store)
        → Leaves R d o u
        → Ended R d (alone answers (ended o) u)
    unfolding alone
    ended_with d (ok a) u h = h
    ended_with d (err e) u h = h

    ends :
        {A : Type 0} {t : Action A} {s : Store}
        → Does answers t s (Leaves R s.content)
        → Ended R s.content (alone answers (start_task t) s)
    ends {s} h =
        subst (Ended R s.content) (sym (h.runs ended))
          (ended_with s.content h.outcome h.store h.result)

  -- The data after the operations, from the data before.
  abbrev pub Deleted : String → Data → Data → Type 0
  Deleted client_id d = Has (forget client_id (registry d.oauth_clients))

  abbrev pub Created : Data → Data → Type 0
  Created d d' =
      (r : OAuthClientCreateResponse) × (answers (json created_payload) ≡ ok r)
      × Has (enter r.client (registry d.oauth_clients)) d'

  abbrev pub Updated : Data → Data → Type 0
  Updated d d' =
      ((r : OAuthClient) × (answers (json updated_payload) ≡ ok r)
        × Has (renew r (registry d.oauth_clients)) d')
      ⊎ ((d.oauth_clients ≡ []) × (d' ≡ d))

  appended :
      (client : OAuthClient) (d e : Data)
      → e ≡ d
      → Has
          (enter client (registry d.oauth_clients))
          (record e { oauth_clients = e.oauth_clients ++ client ∷ [] })
  appended client d e h id =
      ap (λ x. registry (x.oauth_clients ++ client ∷ []) id) h
      ∙ registry-append client d.oauth_clients id

  replaced :
      (client : OAuthClient) (d e : Data)
      → e ≡ d
      → Has
          (renew client (registry d.oauth_clients))
          (record e { oauth_clients = map (replace_client client) e.oauth_clients })
  replaced client d e h id =
      ap (λ x. registry (map (replace_client client) x.oauth_clients) id) h
      ∙ registry-replace_client client d.oauth_clients id

  removed :
      (client_id : String) (d e : Data)
      → e ≡ d
      → Deleted client_id d (record e { oauth_clients = remove_client client_id e.oauth_clients })
  removed client_id d e h id =
      ap (λ x. registry (remove_client client_id x.oauth_clients) id) h
      ∙ registry-remove_client client_id d.oauth_clients id

  module _ (platform : Platform) where
    Leaves-remove_client :
        (client_id : String) (s u : Store)
        → u.content ≡ s.content
        → Does answers
            (modify (
              write_content
                (λ d. record d { oauth_clients = remove_client client_id d.oauth_clients })))
            u
            (Leaves (Deleted client_id s.content) s.content)
    Leaves-remove_client client_id s u h =
        modify-Does answers _ (removed client_id s.content u.content h)

    -- Whatever the calls answer, `deleteOAuthClient` ends when it runs alone: if it succeeds, then the
    -- clients are those before without the identifier, and if it fails, then the data is as before, or
    -- empty.
    pub delete_oauth_client-refines :
        (client_id : String) (s : Store)
        → Ended
            (Deleted client_id s.content)
            s.content
            (alone answers (start_task (delete_oauth_client platform client_id)) s)
    unfolding delete_oauth_client
    delete_oauth_client-refines client_id s = ends (Deleted client_id s.content) (
        bind-Does answers
          (admin_fetch-Does answers empty_payload (client_path platform client_id) delete_method
            no_body s)
          (λ b u h. Leaves-remove_client client_id s u h.0) (λ e u h. h))

    entered :
        (s u : Store) (b : Option OAuthClientCreateResponse)
        → Fetched answers created_payload s.content (ok b) u
        → Does answers
            (present platform b >>= λ response.
              modify (
                write_content
                  (λ d. record d { oauth_clients = d.oauth_clients ++ response.client ∷ [] }))
              >> return response)
            u
            (Leaves (Created s.content) s.content)
    entered s u none h = throw-Does answers (error platform.type_error) (inl h.0)
    entered s u (some r) h =
        modify_then-Does answers _
          (λ _. return-Does answers r (r, h.1, appended r.client s.content u.content h.0))

    -- Whatever the calls answer, `createOAuthClient` ends when it runs alone: if it succeeds, then the
    -- clients are those before and the client of the answer, unless its identifier was taken, and if it
    -- fails, then the data is as before, or empty.
    pub create_oauth_client-refines :
        (request : CreateOAuthClientRequest) (s : Store)
        → Ended
            (Created s.content)
            s.content
            (alone answers (start_task (create_oauth_client platform request)) s)
    unfolding create_oauth_client
    create_oauth_client-refines request s = ends (Created s.content) (
        bind-Does answers
          (admin_fetch-Does answers created_payload clients_path post_method (new_client request) s)
          (λ b u h. entered s u b h) (λ e u h. h))

    unanswered :
        (s u : Store) (clients : List OAuthClient)
        → u.content ≡ s.content
        → u.content.oauth_clients ≡ clients
        → Does answers {A = Option OAuthClient}
            (elim clients [
              | [] ↦ return none
              | ◌∷◌ client others ↦ throw (error platform.type_error)
            ])
            u
            (Leaves (Updated s.content) s.content)
    unanswered s u [] h e =
        return-Does answers none (inr (ap (λ d. d.oauth_clients) (sym h) ∙ e, h))
    unanswered s u (client ∷ clients) h e = throw-Does answers (error platform.type_error) (inl h)

    renewed :
        (s u : Store) (b : Option OAuthClient)
        → Fetched answers updated_payload s.content (ok b) u
        → Does answers (apply_update platform b) u (Leaves (Updated s.content) s.content)
    unfolding apply_update
    renewed s u (some r) h =
        modify_then-Does answers _
          (λ _. return-Does answers (some r) (inl (r, h.1, replaced r s.content u.content h.0)))
    renewed s u none h =
        read_then-Does answers
          (λ x e. unanswered s u x.content.oauth_clients h.0 (ap (λ y. y.content.oauth_clients) e))

    -- Whatever the calls answer, `updateOAuthClient` ends when it runs alone: if it succeeds, then the
    -- client of the answer, if it was there, has its new data and all others are as before, and if it
    -- fails, then the data is as before, or empty.
    pub update_oauth_client-refines :
        (client_id : String) (request : UpdateOAuthClientRequest) (s : Store)
        → Ended
            (Updated s.content)
            s.content
            (alone answers (start_task (update_oauth_client platform client_id request)) s)
    unfolding update_oauth_client
    update_oauth_client-refines client_id request s = ends (Updated s.content) (
        bind-Does answers
          (admin_fetch-Does answers updated_payload (client_path platform client_id) patch_method
            (changed_client request) s)
          (λ b u h. renewed s u b h) (λ e u h. h))
