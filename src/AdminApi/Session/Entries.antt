-- ===== src/AdminApi/Session/Entries.antt =====
-- The programs that the pages of the administrator start, and the invariant of the session.
use adscope_identity.Prelude.{Option, ℕ, String, Bool}
use adscope_identity.Types.{CreateOAuthClientRequest, UpdateOAuthClientRequest}
use adscope_identity.Types.{OAuthClient, OrganizationalUnit, UserRecord}
use adscope_identity.Async.{Proc, start_task, modify}
use adscope_identity.Async.Rules.{Ensures}
use adscope_identity.Async.Triples.{start_task-Ensures}
use adscope_identity.AdminApi.State.{Refs, Store, Method, Body, Payload, Call, Value}
use adscope_identity.AdminApi.{write_refs, Action, Platform, clear_session, admin_fetch}
use adscope_identity.AdminApi.Loads.{
  load_domains, load_ous, load_users, load_groups, load_sync_domains, load_oauth_clients,
}
use adscope_identity.AdminApi.Signing.{
  logout, load_directory, load_all, refresh_directory, refresh_all, restore_session,
  authenticate_token,
}
use adscope_identity.AdminApi.Clients.{
  create_oauth_client, update_oauth_client, delete_oauth_client, regenerate_oauth_client_secret,
}
use adscope_identity.AdminApi.Session.{
  write_refs-Preserves, weight, IsSession, IsPermitted, KeepsSession, clear_session-Preserves,
  changes,
}
use adscope_identity.AdminApi.Session.Operations.{
  admin_fetch-Keeps, load_domains-Keeps, load_ous-Keeps, load_users-Keeps, load_groups-Keeps,
  load_sync_domains-Keeps, load_oauth_clients-Keeps,
}
use adscope_identity.AdminApi.Session.Commands.{
  logout-Keeps, load_directory-Keeps, load_all-Keeps, refresh_directory-Keeps, refresh_all-Keeps,
  restore_session-Keeps, authenticate_token-Keeps, create_oauth_client-Keeps,
  update_oauth_client-Keeps, delete_oauth_client-Keeps, regenerate_oauth_client_secret-Keeps,
}
use adscope_identity.AdminShell.Programs.{mounted, submit_credential, exit_management}
use adscope_identity.AdminShell.Session.{
  mounted-Keeps, submit_credential-Keeps, exit_management-Keeps,
}
use adscope_identity.ClientsPage.Programs.{
  save_client, toggle_client, remove_client, regenerate_secret, refresh_clients, copy_secret,
}
use adscope_identity.ClientsPage.Session.{
  save_client-Keeps, toggle_client-Keeps, remove_client-Keeps, regenerate_secret-Keeps,
  refresh_clients-Keeps, copy_secret-Keeps,
}
use adscope_identity.DomainsPage.Programs.{save_domain, refresh_domains, copy_syncer_key}
use adscope_identity.DomainsPage.Session.{
  save_domain-Keeps, refresh_domains-Keeps, copy_syncer_key-Keeps,
}
use adscope_identity.DirectoryPage.Programs.{
  start_user_editor, save_ou, save_user, save_group, reset_user_password,
}
use adscope_identity.DirectoryPage.Removals.{edit_ou_node, remove_ou, remove_ou_node, remove_user}
use adscope_identity.DirectoryPage.Session.{
  start_user_editor-Keeps, save_ou-Keeps, save_user-Keeps, save_group-Keeps,
  reset_user_password-Keeps, edit_ou_node-Keeps, remove_ou-Keeps, remove_ou_node-Keeps,
  remove_user-Keeps,
}

module _ (platform : Platform) where
  -- What the pages start, with any arguments.
  pub data IsEntry : Proc Store Call Value → Type 0 where
    starts_clear_session : IsEntry (start_task (modify clear_session))
    starts_restore_session : IsEntry (start_task (restore_session platform))
    starts_authenticate_token :
        (token : String) (show_success : Bool)
        → IsEntry (start_task (authenticate_token platform token show_success))
    starts_logout : IsEntry (start_task logout)
    starts_load_domains : IsEntry (start_task (load_domains platform))
    starts_load_ous : IsEntry (start_task (load_ous platform))
    starts_load_users : IsEntry (start_task (load_users platform))
    starts_load_groups : IsEntry (start_task (load_groups platform))
    starts_load_sync_domains : IsEntry (start_task (load_sync_domains platform))
    starts_load_oauth_clients : IsEntry (start_task (load_oauth_clients platform))
    starts_load_directory : IsEntry (start_task (load_directory platform))
    starts_load_all : IsEntry (start_task (load_all platform))
    starts_refresh_directory : IsEntry (start_task (refresh_directory platform))
    starts_refresh_all : IsEntry (start_task (refresh_all platform))
    starts_admin_fetch :
        (p : Payload) (path : String) (method : Method) (body : Body)
        → IsEntry (start_task (admin_fetch p path method body))
    starts_create_oauth_client :
        (r : CreateOAuthClientRequest) → IsEntry (start_task (create_oauth_client platform r))
    starts_update_oauth_client :
        (client_id : String) (r : UpdateOAuthClientRequest)
        → IsEntry (start_task (update_oauth_client platform client_id r))
    starts_delete_oauth_client :
        (client_id : String) → IsEntry (start_task (delete_oauth_client platform client_id))
    starts_regenerate_oauth_client_secret :
        (client_id : String)
        → IsEntry (start_task (regenerate_oauth_client_secret platform client_id))
    -- Handlers that only change refs of the pages.
    starts_refs : (f : Refs → Refs) → IsEntry (start_task (modify (write_refs f)))
    starts_mounted : IsEntry (start_task (mounted platform))
    starts_submit_credential : IsEntry (start_task (submit_credential platform))
    starts_exit_management : IsEntry (start_task exit_management)
    starts_save_client : IsEntry (start_task (save_client platform))
    starts_toggle_client :
        (client : OAuthClient) → IsEntry (start_task (toggle_client platform client))
    starts_remove_client :
        (client : OAuthClient) → IsEntry (start_task (remove_client platform client))
    starts_regenerate_secret : IsEntry (start_task (regenerate_secret platform))
    starts_refresh_clients : IsEntry (start_task (refresh_clients platform))
    starts_copy_secret : IsEntry (start_task copy_secret)
    starts_save_domain : IsEntry (start_task (save_domain platform))
    starts_refresh_domains : IsEntry (start_task (refresh_domains platform))
    starts_copy_syncer_key : IsEntry (start_task copy_syncer_key)
    starts_start_user_editor :
        (user : Option UserRecord) → IsEntry (start_task (start_user_editor platform user))
    starts_save_ou : IsEntry (start_task (save_ou platform))
    starts_save_user : IsEntry (start_task (save_user platform))
    starts_save_group : IsEntry (start_task (save_group platform))
    starts_reset_user_password : IsEntry (start_task (reset_user_password platform))
    starts_edit_ou_node : (key : String) → IsEntry (start_task (edit_ou_node key))
    starts_remove_ou : (ou : OrganizationalUnit) → IsEntry (start_task (remove_ou platform ou))
    starts_remove_ou_node : (key : String) → IsEntry (start_task (remove_ou_node platform key))
    starts_remove_user : (user : UserRecord) → IsEntry (start_task (remove_user platform user))

  kept :
      {A : Type 0} {t : Action A} (s : Store) (b : ℕ)
      → IsSession b s
      → KeepsSession 0 t
      → Ensures weight IsSession IsPermitted b (start_task t) s
  kept {t} s b j h = start_task-Ensures weight IsSession IsPermitted t h s b j

  pub entries :
      (p : Proc Store Call Value) (s : Store) (b : ℕ)
      → IsEntry p
      → IsSession b s
      → Ensures weight IsSession IsPermitted b p s
  entries _ s b starts_clear_session j = kept s b j (changes clear_session-Preserves)
  entries _ s b starts_restore_session j = kept s b j (restore_session-Keeps platform)
  entries _ s b (starts_authenticate_token t m) j =
      kept s b j (authenticate_token-Keeps platform t m)
  entries _ s b starts_logout j = kept s b j logout-Keeps
  entries _ s b starts_load_domains j = kept s b j (load_domains-Keeps platform)
  entries _ s b starts_load_ous j = kept s b j (load_ous-Keeps platform)
  entries _ s b starts_load_users j = kept s b j (load_users-Keeps platform)
  entries _ s b starts_load_groups j = kept s b j (load_groups-Keeps platform)
  entries _ s b starts_load_sync_domains j = kept s b j (load_sync_domains-Keeps platform)
  entries _ s b starts_load_oauth_clients j = kept s b j (load_oauth_clients-Keeps platform)
  entries _ s b starts_load_directory j = kept s b j (load_directory-Keeps platform)
  entries _ s b starts_load_all j = kept s b j (load_all-Keeps platform)
  entries _ s b starts_refresh_directory j = kept s b j (refresh_directory-Keeps platform)
  entries _ s b starts_refresh_all j = kept s b j (refresh_all-Keeps platform)
  entries _ s b (starts_admin_fetch p u m d) j = kept s b j (admin_fetch-Keeps p u m d)
  entries _ s b (starts_create_oauth_client r) j = kept s b j (create_oauth_client-Keeps platform r)
  entries _ s b (starts_update_oauth_client i r) j =
      kept s b j (update_oauth_client-Keeps platform i r)
  entries _ s b (starts_delete_oauth_client i) j = kept s b j (delete_oauth_client-Keeps platform i)
  entries _ s b (starts_regenerate_oauth_client_secret i) j =
      kept s b j (regenerate_oauth_client_secret-Keeps platform i)
  entries _ s b (starts_refs f) j = kept s b j (changes (write_refs-Preserves f))
  entries _ s b starts_mounted j = kept s b j (mounted-Keeps platform)
  entries _ s b starts_submit_credential j = kept s b j (submit_credential-Keeps platform)
  entries _ s b starts_exit_management j = kept s b j exit_management-Keeps
  entries _ s b starts_save_client j = kept s b j (save_client-Keeps platform)
  entries _ s b (starts_toggle_client x) j = kept s b j (toggle_client-Keeps platform x)
  entries _ s b (starts_remove_client x) j = kept s b j (remove_client-Keeps platform x)
  entries _ s b starts_regenerate_secret j = kept s b j (regenerate_secret-Keeps platform)
  entries _ s b starts_refresh_clients j = kept s b j (refresh_clients-Keeps platform)
  entries _ s b starts_copy_secret j = kept s b j copy_secret-Keeps
  entries _ s b starts_save_domain j = kept s b j (save_domain-Keeps platform)
  entries _ s b starts_refresh_domains j = kept s b j (refresh_domains-Keeps platform)
  entries _ s b starts_copy_syncer_key j = kept s b j copy_syncer_key-Keeps
  entries _ s b (starts_start_user_editor x) j = kept s b j (start_user_editor-Keeps platform x)
  entries _ s b starts_save_ou j = kept s b j (save_ou-Keeps platform)
  entries _ s b starts_save_user j = kept s b j (save_user-Keeps platform)
  entries _ s b starts_save_group j = kept s b j (save_group-Keeps platform)
  entries _ s b starts_reset_user_password j = kept s b j (reset_user_password-Keeps platform)
  entries _ s b (starts_edit_ou_node x) j = kept s b j (edit_ou_node-Keeps x)
  entries _ s b (starts_remove_ou x) j = kept s b j (remove_ou-Keeps platform x)
  entries _ s b (starts_remove_ou_node x) j = kept s b j (remove_ou_node-Keeps platform x)
  entries _ s b (starts_remove_user x) j = kept s b j (remove_user-Keeps platform x)
