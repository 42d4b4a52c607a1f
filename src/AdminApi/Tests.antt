-- ===== src/AdminApi/Tests.antt =====
-- Concrete runs of the administrator's session.
use adscope_identity.Prelude.{◌≡◌, refl, ◌⊎◌, inl, true, ◌++◌}
use adscope_identity.Async.{Proc, start_task}
use adscope_identity.Async.Machine.{Machine, Reach, start, next, launch, run, threads_of, all_held}
use adscope_identity.Async.Sends.{Sends, at, reads, writes}
use adscope_identity.Text.{trim, trim_end, trim_start, blank, keep_end}
use adscope_identity.AdminApi.State.{
  Store, Request, delete_method, no_body, empty_payload, Call, fetch, Value,
}
use adscope_identity.AdminApi.{admin_fetch, admin_request, track_request, raise_pending}
use adscope_identity.AdminApi.Signing.{
  authenticate_token, restore_session, begin_session, authenticate_steps,
}
use adscope_identity.AdminApi.Samples.{browser, idle}
use adscope_identity.AdminApi.Session.{weight, IsSession, IsPermitted}
use adscope_identity.AdminApi.Session.Entries.{
  IsEntry, starts_restore_session, starts_authenticate_token, starts_admin_fetch,
}
use adscope_identity.AdminApi.Session.Reachable.{opened, pending-in_flight, Sends-csrf}

abbrev launched : Proc Store Call Value → Machine Store Call Value → Machine Store Call Value
launched p m = record {
  state = (run p m.state).state;
  threads = threads_of (run p m.state) ++ m.threads;
}

-- The page asks for a session, and the administrator signs in before the answer comes.
abbrev restoring : Machine Store Call Value
restoring = launched (start_task (restore_session browser)) (opened idle)

abbrev signing_in : Machine Store Call Value
signing_in = launched (start_task (authenticate_token browser " secret " true)) restoring

signing_in_reached : Reach (IsEntry browser) (opened idle) signing_in
signing_in_reached =
    next
      (next start
        (launch (start_task (restore_session browser)) (opened idle) starts_restore_session))
      (launch (start_task (authenticate_token browser " secret " true)) restoring
        (starts_authenticate_token " secret " true))

signing_in_pending : signing_in.state.pending ≡ 2
unfolding run restore_session authenticate_token authenticate_steps track_request trim trim_end
    trim_start blank keep_end
signing_in_pending = refl

pending-in_flight_example :
    (signing_in.state.pending ≡ all_held weight signing_in.threads)
    × ((signing_in.state.authenticated ≡ true) ⊎ (signing_in.state.csrf_token ≡ ""))
pending-in_flight_example = pending-in_flight browser idle signing_in signing_in_reached

abbrev signed_in : Store
signed_in = begin_session "csrf" (opened idle).state

abbrev removal : Request
removal = admin_request "/api/admin/users/7" delete_method no_body "csrf"

Sends-removal :
    Sends weight IsSession
      (start_task (admin_fetch empty_payload "/api/admin/users/7" delete_method no_body))
      signed_in
      (fetch removal)
      (raise_pending signed_in)
unfolding admin_fetch track_request
Sends-removal = reads _ _ _ _ (reads _ _ _ _ (writes _ _ _ _ _ (reads _ _ _ _ (at _ _ _))))

Sends-csrf_example : IsPermitted (fetch removal) (raise_pending signed_in)
Sends-csrf_example =
    Sends-csrf browser
      (start_task (admin_fetch empty_payload "/api/admin/users/7" delete_method no_body)) 0
      signed_in (fetch removal) (raise_pending signed_in)
      (starts_admin_fetch empty_payload "/api/admin/users/7" delete_method no_body)
      (record { counted = refl; guarded = inl refl }) Sends-removal
