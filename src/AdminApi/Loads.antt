-- ===== src/AdminApi/Loads.antt =====
-- portal/web/app/composables/useAdminApi.ts: the loads of the data.
use adscope_identity.Prelude.{String, Bool, true, false}
use adscope_identity.Async.{◌>>=◌, ◌>>◌, finally, modify}
use adscope_identity.AdminApi.State.{
  Flags, Store, get_method, no_body, DomainsResponse, OusResponse, UsersResponse, GroupsResponse,
  SyncDomainsResponse, OAuthClientsResponse, Payload, domains_payload, ous_payload, users_payload,
  groups_payload, sync_payload, clients_payload, json, Value,
}
use adscope_identity.AdminApi.{Action, Platform, write_content, write_flags, admin_fetch, present}

-- What the loads write: their flags, and what they read.
abbrev pub flag_domains : Bool → Flags → Flags
flag_domains b f = record f { domains_loading = b }

abbrev pub flag_ous : Bool → Flags → Flags
flag_ous b f = record f { ous_loading = b }

abbrev pub flag_users : Bool → Flags → Flags
flag_users b f = record f { users_loading = b }

abbrev pub flag_groups : Bool → Flags → Flags
flag_groups b f = record f { groups_loading = b }

abbrev pub flag_sync_domains : Bool → Flags → Flags
flag_sync_domains b f = record f { sync_loading = b }

abbrev pub flag_oauth_clients : Bool → Flags → Flags
flag_oauth_clients b f = record f { clients_loading = b }

abbrev pub put_domains : DomainsResponse → Store → Store
put_domains r s = record s {
  content = record (s.content) { domains = r.domains };
  domain_attribute_defaults = r.attribute_defaults;
}

abbrev pub put_ous : OusResponse → Store → Store
put_ous r = write_content (λ d. record d { organizational_units = r.organizational_units })

abbrev pub put_users : UsersResponse → Store → Store
put_users r = write_content (λ d. record d { users = r.users })

abbrev pub put_groups : GroupsResponse → Store → Store
put_groups r = write_content (λ d. record d { groups = r.groups })

abbrev pub put_sync_domains : SyncDomainsResponse → Store → Store
put_sync_domains r = write_content (λ d. record d { sync_domains = r.domains })

abbrev pub put_oauth_clients : OAuthClientsResponse → Store → Store
put_oauth_clients r = write_content (λ d. record d { oauth_clients = r.clients })

module _ (platform : Platform) where
  -- A load: its flag is set while it runs, and `write` puts what it read into the store.
  unfoldable pub load :
      (p : Payload)
      → String
      → (Bool → Flags → Flags)
      → (Value (json p) → Store → Store)
      → Action (Unit {0})
  unfolding admin_fetch
  load p path flag write = do
    modify (write_flags (flag true))
    finally
        (do
          body ← admin_fetch p path get_method no_body
          response ← present platform body
          modify (write response))
        (write_flags (flag false))

  unfoldable pub load_domains : Action (Unit {0})
  unfolding load
  load_domains = load domains_payload "/api/admin/domains" flag_domains put_domains

  unfoldable pub load_ous : Action (Unit {0})
  unfolding load
  load_ous = load ous_payload "/api/admin/ous/tree" flag_ous put_ous

  unfoldable pub load_users : Action (Unit {0})
  unfolding load
  load_users = load users_payload "/api/admin/users" flag_users put_users

  unfoldable pub load_groups : Action (Unit {0})
  unfolding load
  load_groups = load groups_payload "/api/admin/groups" flag_groups put_groups

  unfoldable pub load_sync_domains : Action (Unit {0})
  unfolding load
  load_sync_domains = load sync_payload "/api/admin/sync/domains" flag_sync_domains put_sync_domains

  unfoldable pub load_oauth_clients : Action (Unit {0})
  unfolding load
  load_oauth_clients =
      load clients_payload "/api/admin/oauth-clients" flag_oauth_clients put_oauth_clients
