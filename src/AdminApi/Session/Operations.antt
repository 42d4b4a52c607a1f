-- ===== src/AdminApi/Session/Operations.antt =====
-- The invariant of the administrator's session in its operations.
use adscope_identity.Prelude.{
  String, Bool, true, false, ◌&&◌, ◌≡◌, refl, inr, Option, none, some, eqb, arith,
}
use adscope_identity.Text.{truthy}
use adscope_identity.Async.{error, ◌>>◌, call, get, put}
use adscope_identity.Async.Triples.{then_do-Relies, call-Keeps, if-Ensures}
use adscope_identity.UserApi.State.{Response, success, failure}
use adscope_identity.UserApi.{is_ok, status_message, request_error_message}
use adscope_identity.AdminApi.State.{
  Store, Flags, Method, Body, get_method, no_body, Payload, domains_payload, ous_payload,
  users_payload, groups_payload, sync_payload, clients_payload, json, Value,
}
use adscope_identity.AdminApi.{
  Action, Platform, token_ready, track_request, check_admin_response, read_body, admin_fetch,
  run_action, present,
}
use adscope_identity.AdminApi.Loads.{
  flag_domains, put_domains, flag_ous, put_ous, flag_users, put_users, flag_groups, put_groups,
  flag_sync_domains, put_sync_domains, flag_oauth_clients, put_oauth_clients, load, load_domains,
  load_ous, load_users, load_groups, load_sync_domains, load_oauth_clients,
}
use adscope_identity.AdminApi.Session.{
  weight, IsSession, IsPermitted, KeepsSession, Preserves, clear_session-Preserves,
  notify-Preserves, notify_if-Preserves, write_flags-Preserves, in_turn, caught, gives, fails,
  either, afterwards, changes, lower-Relies, raise-IsSession,
}

check_admin_response-Keeps : (r : Response) → KeepsSession 1 (check_admin_response r)
unfolding check_admin_response
check_admin_response-Keeps r = either (is_ok r.status) (gives tt) (
    either (eqb r.status 401)
      (in_turn (changes clear_session-Preserves) (λ _. fails (error "管理会话已失效，请重新输入管理凭证")))
      (fails (error (status_message r))))

call-json-Keeps : (p : Payload) → KeepsSession 1 (call (json p))
call-json-Keeps p = call-Keeps weight IsSession IsPermitted (json p) (λ m s j. tt)

read_body-Keeps : (p : Payload) (r : Response) → KeepsSession 1 (read_body p r)
unfolding read_body
read_body-Keeps p r =
    either (eqb r.status 204) (gives none) (in_turn (call-json-Keeps p) (λ v. gives (some v)))

-- What `adminFetch` does with a response.
abbrev reply : (p : Payload) → Response → Action (Option (Value (json p)))
reply p response = check_admin_response response >> read_body p response

reply-Keeps : (p : Payload) (r : Response) → KeepsSession 1 (reply p r)
reply-Keeps p r = in_turn (check_admin_response-Keeps r) (λ _. read_body-Keeps p r)

both : (a b : Bool) → (a && b) ≡ true → (a ≡ true) × (b ≡ true)
both a b h = (ground arith, ground arith)

pub admin_fetch-Keeps :
    (p : Payload) (path : String) (method : Method) (body : Body)
    → KeepsSession 0 (admin_fetch p path method body)
unfolding admin_fetch track_request
admin_fetch-Keeps p path method body = record {
  ensures = λ k h s b j.
      if-Ensures weight IsSession IsPermitted (token_ready s) _ _ k s b
        (λ full.
          let (signed, ready) = both s.authenticated (truthy s.csrf_token) full in
          (
            inr (signed, ready, refl),
            raise-IsSession b s j,
            then_do-Relies weight IsSession IsPermitted 1 (reply p) (λ o. get (λ u. put _ (k o)))
                (reply-Keeps p) (lower-Relies k h),
          ))
        (λ _. h _ s b j);
}

pub run_action-Keeps :
    (action : Action (Unit {0})) (m : Option String)
    → KeepsSession 0 action
    → KeepsSession 0 (run_action action m)
unfolding run_action
run_action-Keeps action none h =
    caught (in_turn h (λ _. changes (λ n s j. j)))
      (λ e. changes (notify-Preserves (failure (request_error_message e "请求失败"))))
run_action-Keeps action (some m) h =
    caught (in_turn h (λ _. changes (notify_if-Preserves (truthy m) (success m))))
      (λ e. changes (notify-Preserves (failure (request_error_message e "请求失败"))))

module _ (platform : Platform) where
  pub present-Keeps : {A : Type 0} (o : Option A) → KeepsSession 0 (present platform o)
  present-Keeps none = fails (error platform.type_error)
  present-Keeps (some a) = gives a

  load-Keeps :
      (p : Payload) (path : String) (flag : Bool → Flags → Flags)
      (write : Value (json p) → Store → Store)
      → ((r : Value (json p)) → Preserves (write r))
      → KeepsSession 0 (load platform p path flag write)
  unfolding load
  load-Keeps p path flag write h = in_turn (changes (write_flags-Preserves (flag true))) (λ _.
      afterwards
        (in_turn (admin_fetch-Keeps p path get_method no_body)
          (λ body. in_turn (present-Keeps body) (λ r. changes (h r))))
        (write_flags-Preserves (flag false)))

  pub load_domains-Keeps : KeepsSession 0 (load_domains platform)
  unfolding load_domains
  load_domains-Keeps =
      load-Keeps domains_payload "/api/admin/domains" flag_domains put_domains
        (λ r n s j. record { counted = j.counted; guarded = j.guarded })

  pub load_ous-Keeps : KeepsSession 0 (load_ous platform)
  unfolding load_ous
  load_ous-Keeps =
      load-Keeps ous_payload "/api/admin/ous/tree" flag_ous put_ous
        (λ r n s j. record { counted = j.counted; guarded = j.guarded })

  pub load_users-Keeps : KeepsSession 0 (load_users platform)
  unfolding load_users
  load_users-Keeps =
      load-Keeps users_payload "/api/admin/users" flag_users put_users
        (λ r n s j. record { counted = j.counted; guarded = j.guarded })

  pub load_groups-Keeps : KeepsSession 0 (load_groups platform)
  unfolding load_groups
  load_groups-Keeps =
      load-Keeps groups_payload "/api/admin/groups" flag_groups put_groups
        (λ r n s j. record { counted = j.counted; guarded = j.guarded })

  pub load_sync_domains-Keeps : KeepsSession 0 (load_sync_domains platform)
  unfolding load_sync_domains
  load_sync_domains-Keeps =
      load-Keeps sync_payload "/api/admin/sync/domains" flag_sync_domains put_sync_domains
        (λ r n s j. record { counted = j.counted; guarded = j.guarded })

  pub load_oauth_clients-Keeps : KeepsSession 0 (load_oauth_clients platform)
  unfolding load_oauth_clients
  load_oauth_clients-Keeps =
      load-Keeps clients_payload "/api/admin/oauth-clients" flag_oauth_clients put_oauth_clients
        (λ r n s j. record { counted = j.counted; guarded = j.guarded })
