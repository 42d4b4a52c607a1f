-- ===== src/UserApi/Tests.antt =====
-- Concrete runs of the user session.
use adscope_identity.Prelude.{◌+◌, All, ◌∷◌, true, false, ◌≡◌, refl, ◌⊎◌, inr, none, some, [], ltb}
use adscope_identity.Text.{trim, trim_end, trim_start, blank, keep_end}
use adscope_identity.Async.{err, thrown, ok, finish, start_task}
use adscope_identity.Async.Machine.{
  Machine, Reach, start, next, launch, resume, here, run, all_held,
}
use adscope_identity.Async.Sends.{Sends, at, reads, writes}
use adscope_identity.UserApi.State.{Store, Request, get_method, no_body, Call, fetch, Value}
use adscope_identity.UserApi.{
  assign, clear, lower_pending, logout, logout_request, load_token, load_me, loading,
  bearer_request, track_request, user_fetch, raise_pending,
}
use adscope_identity.UserApi.Samples.{here_now, idle, parser, launched}
use adscope_identity.UserApi.Session.{
  weight, reading_weight, request_weight, IsSession, IsPermitted,
}
use adscope_identity.UserApi.Session.Entries.{
  IsEntry, starts_load_token, starts_load_me, starts_switch_account,
}
use adscope_identity.AuthorizePage.Programs.{switch_account}
use adscope_identity.Oidc.Continue.{IsTarget}
use adscope_identity.UserApi.Session.Reachable.{
  assigned-IsTarget, opened, pending-all_held, access_token-stored, Sends-IsPermitted,
}

-- The browser keeps a token, which the page loads.
abbrev ready : Machine Store Call Value
ready = launched (start_task load_token) (opened (some "abc") idle here_now)

-- Two requests for the profile are in flight.
abbrev in_flight : Machine Store Call Value
in_flight = launched (start_task (load_me false)) (launched (start_task (load_me true)) ready)

ready_reached : Reach (IsEntry parser) (opened (some "abc") idle here_now) ready
ready_reached =
    next start
      (launch (start_task load_token) (opened (some "abc") idle here_now) starts_load_token)

in_flight_reached : Reach (IsEntry parser) (opened (some "abc") idle here_now) in_flight
in_flight_reached =
    next (next ready_reached (launch (start_task (load_me true)) ready (starts_load_me true))) (
      launch (start_task (load_me false)) (launched (start_task (load_me true)) ready)
        (starts_load_me false))

in_flight_pending : in_flight.state.pending ≡ 2
unfolding run load_token load_me user_fetch track_request trim trim_end trim_start blank keep_end
in_flight_pending = refl

pending-all_held_example :
    (in_flight.state.pending ≡ all_held weight in_flight.threads)
    × (loading in_flight.state ≡ ltb 0 (all_held weight in_flight.threads))
    × (all_held request_weight in_flight.threads
        ≡ in_flight.state.pending + all_held reading_weight in_flight.threads)
pending-all_held_example =
    pending-all_held parser (some "abc") idle here_now in_flight in_flight_reached

access_token-stored_example :
    (in_flight.state.access_token ≡ "")
    ⊎ (in_flight.state.stored_token ≡ some in_flight.state.access_token)
access_token-stored_example =
    access_token-stored parser (some "abc") idle here_now in_flight in_flight_reached

abbrev signed_in : Store
signed_in = record {
  access_token = " abc ";
  profile = none;
  pending = 0;
  stored_token = some " abc ";
  notices = [];
  refs = idle;
  location = here_now;
}

abbrev profile_request : Request
profile_request = bearer_request "/api/me" get_method no_body " abc "

Sends-profile_request :
    Sends weight IsSession
      (start_task (load_me true))
      signed_in
      (fetch profile_request)
      (raise_pending signed_in)
unfolding load_me user_fetch track_request trim trim_end trim_start blank keep_end
Sends-profile_request = reads _ _ _ _ (reads _ _ _ _ (writes _ _ _ _ _ (reads _ _ _ _ (at _ _ _))))

Sends-IsPermitted_example : IsPermitted (fetch profile_request) (raise_pending signed_in)
Sends-IsPermitted_example =
    Sends-IsPermitted parser (start_task (load_me true)) 0 signed_in (fetch profile_request)
      (raise_pending signed_in) (starts_load_me true)
      (record { counted = refl; stored = inr refl; assigned = tt }) Sends-profile_request

-- The account is switched, whatever the server says of the logout.
abbrev switching : Machine Store Call Value
switching = launched (start_task switch_account) (opened (some "abc") idle here_now)

abbrev switched : Store
switched = assign "/oauth2/authorize" (clear (lower_pending switching.state))

switched_reached :
    Reach
      (IsEntry parser)
      (opened (some "abc") idle here_now)
      (record { state = switched; threads = finish (ok tt) ∷ [] })
unfolding run switch_account logout track_request
switched_reached =
    next
      (next start (
        launch (start_task switch_account) (opened (some "abc") idle here_now)
          starts_switch_account))
      (resume [] [] _ _ _ (here (fetch logout_request) _ (err thrown) _))

assigned-IsTarget_example : All IsTarget switched.location.assigned
assigned-IsTarget_example =
    assigned-IsTarget parser (some "abc") idle here_now
      (record { state = switched; threads = finish (ok tt) ∷ [] }) switched_reached
