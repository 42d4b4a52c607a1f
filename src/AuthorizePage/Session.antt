-- ===== src/AuthorizePage/Session.antt =====
-- The programs of the page and the invariant of the user session.
use adscope_identity.Prelude.{ℕ, ◌+◌, String, true, false, eqb, none, refl}
use adscope_identity.UserApi.{is_ok}
use adscope_identity.UserApi.State.{Response}
use adscope_identity.UserApi.Session.{
  IsContextPath, KeepsSession, Preserves, write_refs-Preserves, assign-Preserves, in_turn, caught,
  gives, either, afterwards, changes, reads, navigate-Keeps, fetch_context-Keeps,
  context_json-Keeps, refusal_json-Keeps,
}
use adscope_identity.UserApi.Session.Operations.{logout-Keeps}
use adscope_identity.AuthorizePage.{Page, authorize_path, context_path, authorization_error_message}
use adscope_identity.AuthorizePage.Programs.{
  on_page, begin, if_latest, fail_with, show, stop_loading, login_target, read_refusal, refuse,
  accept, use_response, load_steps, load_authorization_context, switch_account,
}

on_page-Preserves : (f : Page → Page) → Preserves (on_page f)
on_page-Preserves f = write_refs-Preserves (λ r. record r { authorize = f r.authorize })

read_refusal-Keeps : (generation : ℕ) → KeepsSession 0 (read_refusal generation)
unfolding read_refusal
read_refusal-Keeps generation =
    caught (in_turn (refusal_json-Keeps generation) (λ r. gives r.refusal)) (λ _. gives none)

refuse-Keeps : (generation status : ℕ) → KeepsSession 0 (refuse generation status)
unfolding refuse
refuse-Keeps generation status = in_turn (read_refusal-Keeps generation) (λ refusal. changes (
    on_page-Preserves
      (if_latest generation (fail_with (authorization_error_message status refusal)))))

accept-Keeps : (generation : ℕ) → KeepsSession 0 (accept generation)
unfolding accept
accept-Keeps generation =
    in_turn (context_json-Keeps generation)
      (λ context. changes (on_page-Preserves (if_latest generation (show context))))

use_response-Keeps :
    (generation : ℕ) (continue_path : String) (r : Response)
    → KeepsSession 0 (use_response generation continue_path r)
unfolding use_response
use_response-Keeps generation continue_path r = reads (λ s.
    either (eqb generation s.refs.authorize.request_generation)
      (either (eqb r.status 401) (navigate-Keeps generation (login_target continue_path))
        (either (is_ok r.status) (accept-Keeps generation) (refuse-Keeps generation r.status)))
      (gives tt))

load_steps-Keeps :
    (generation : ℕ) (request_path continue_path : String)
    → IsContextPath request_path
    → KeepsSession 0 (load_steps generation request_path continue_path)
unfolding load_steps
load_steps-Keeps generation request_path continue_path q =
    afterwards
      (caught
        (in_turn (fetch_context-Keeps generation request_path q)
          (λ r. use_response-Keeps generation continue_path r))
        (λ _. changes (on_page-Preserves (if_latest generation (fail_with "无法连接授权服务，请检查网络后重试。")))))
      (on_page-Preserves (if_latest generation stop_loading))

pub load_authorization_context-Keeps : KeepsSession 0 load_authorization_context
unfolding load_authorization_context
load_authorization_context-Keeps = reads (λ s. in_turn (changes (on_page-Preserves begin)) (λ _.
    load_steps-Keeps (s.refs.authorize.request_generation + 1) (context_path s.location.search)
      (authorize_path s.location.search) (s.location.search, refl)))

pub switch_account-Keeps : KeepsSession 0 switch_account
unfolding switch_account
switch_account-Keeps =
    in_turn (changes (on_page-Preserves (λ p. record p { switching_account = true }))) (λ _.
      in_turn (logout-Keeps false) (λ _. changes (λ n s h.
        assign-Preserves (authorize_path s.location.search) (s.location.search, refl) n s h)))
