-- ===== src/AuthorizePage/Tests.antt =====
-- Concrete runs of the page.
use adscope_identity.Prelude.{none, [], ◌≡◌, refl, ◌<◌, arith}
use adscope_identity.Async.{start_task, Outcome, ok, err, thrown}
use adscope_identity.Async.Alone.{alone}
use adscope_identity.AuthorizePage.{OidcAuthorizationContext}
use adscope_identity.AuthorizePage.Settling.Reading.{
  HasSettled, load_authorization_context-HasSettled,
}
use adscope_identity.Async.Machine.{Machine, Reach, start, next, launch, run, all_held}
use adscope_identity.UserApi.State.{
  fetch_context, context_json, refusal_json, navigate, fetch, json, Store, Call, Value,
}
use adscope_identity.UserApi.Samples.{opened_page, launched}
use adscope_identity.AuthorizePage.Programs.{load_authorization_context, load_steps, use_response}
use adscope_identity.AuthorizePage.Loading.{weight, IsPhase}
use adscope_identity.AuthorizePage.Loading.Reachable.{
  waiting, IsEntry, starts_reading, Reach-IsPhase,
}

-- A reading that waits for its answer, and a second one that supersedes it.
abbrev once : Machine Store Call Value
once = launched (start_task load_authorization_context) (waiting opened_page)

abbrev twice : Machine Store Call Value
twice = launched (start_task load_authorization_context) once

twice_reached : Reach IsEntry (waiting opened_page) twice
twice_reached =
    next
      (next start
        (launch (start_task load_authorization_context) (waiting opened_page) starts_reading))
      (launch (start_task load_authorization_context) once starts_reading)

twice_generation : twice.state.refs.authorize.request_generation ≡ 2
unfolding run load_authorization_context load_steps
twice_generation = refl

twice_weights : (all_held (weight 1) twice.threads ≡ 1) × (all_held (weight 2) twice.threads ≡ 1)
unfolding run load_authorization_context load_steps all_held
twice_weights = (refl, refl)

twice_generation_pos : 0 < twice.state.refs.authorize.request_generation
twice_generation_pos = omega (arith, twice_generation)

-- The answer to the first reading comes late, and changes nothing.
late_answer :
    (run
      (start_task (use_response 1 "/oidc/authorize" (record { status = 200; status_text = "OK" })))
      twice.state).state
    ≡ twice.state
unfolding run load_authorization_context load_steps use_response
late_answer = refl

Reach-IsPhase_example :
    IsPhase
      (all_held (weight twice.state.refs.authorize.request_generation) twice.threads)
      twice.state.refs.authorize
Reach-IsPhase_example =
    Reach-IsPhase opened_page twice (record { unread = refl }) twice_generation_pos twice_reached

abbrev consent : OidcAuthorizationContext
consent = record {
  client_name = "Wiki";
  user = record { employee_id = "1001"; username = "ada"; display_name = "Ada" };
  claims = [];
  csrf_token = "csrf";
  authorization = record {
    response_type = "code";
    client_id = "wiki";
    redirect_uri = "https://wiki.example.com/callback";
    scope = "openid";
    state = "s";
    nonce = "n";
    code_challenge = "c";
    code_challenge_method = "S256";
    response_mode = none;
    prompt = none;
  };
}

-- Core answers with the context.
abbrev answers : (c : Call) → Outcome (Value c)
answers (fetch_context g path) = ok (record { status = 200; status_text = "OK" })
answers (context_json g) = ok consent
answers (refusal_json g) = err thrown
answers (navigate g target) = ok tt
answers (fetch r) = err thrown
answers (json p) = err thrown

load_authorization_context-HasSettled_example :
    HasSettled answers 1 "/api/oauth2/authorize/context"
      (alone answers (start_task load_authorization_context) opened_page)
load_authorization_context-HasSettled_example =
    load_authorization_context-HasSettled answers opened_page
