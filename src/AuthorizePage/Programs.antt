-- ===== src/AuthorizePage/Programs.antt =====
-- portal/web/app/pages/authorize.vue: reading the context of an authorization request, where a later
-- reading supersedes an earlier one, and switching the account.
use adscope_identity.Prelude.{ℕ, ◌+◌, String, true, false, eqb, if◌then◌else◌, Option, none, some}
use adscope_identity.Async.{return, ◌>>=◌, ◌>>◌, catch, finally, read, modify, call}
use adscope_identity.UserApi.State.{
  Store, Response, Target, fetch_context, context_json, refusal_json, navigate,
}
use adscope_identity.UserApi.{Action, write_refs, assign, is_ok, logout}
use adscope_identity.AuthorizePage.{
  OidcAuthorizationContext, Page, authorize_path, context_path, authorization_error_message,
}

abbrev pub on_page : (Page → Page) → Store → Store
on_page f = write_refs (λ r. record r { authorize = f r.authorize })

-- A new generation of the page's requests.
abbrev pub begin : Page → Page
begin p = record p {
  request_generation = p.request_generation + 1;
  loading = true;
  context = none;
  error_message = "";
}

-- A change that only the latest generation makes.
abbrev pub if_latest : ℕ → (Page → Page) → Page → Page
if_latest generation f p = if eqb generation p.request_generation then f p else p

abbrev pub fail_with : String → Page → Page
fail_with message p = record p { error_message = message }

abbrev pub show : OidcAuthorizationContext → Page → Page
show context p = record p { context = some context }

abbrev pub stop_loading : Page → Page
stop_loading p = record p { loading = false }

abbrev pub login_target : String → Target
login_target continue_path = record { path = "/login"; continue_to = some continue_path }

-- The body of a refusal, where a body that is no JSON counts as one without an error.
unfoldable pub read_refusal : ℕ → Action (Option String)
read_refusal generation =
    catch (call (refusal_json generation) >>= λ r. return r.refusal) (λ _. return none)

unfoldable pub refuse : ℕ → ℕ → Action (Unit {0})
refuse generation status = do
  refusal ← read_refusal generation
  modify (on_page (if_latest generation (fail_with (authorization_error_message status refusal))))

unfoldable pub accept : ℕ → Action (Unit {0})
accept generation = do
  context ← call (context_json generation)
  modify (on_page (if_latest generation (show context)))

-- What the page does with the answer.
unfoldable pub use_response : ℕ → String → Response → Action (Unit {0})
use_response generation continue_path response = do
  s ← read
  if eqb generation s.refs.authorize.request_generation
      then (if eqb response.status 401
          then call (navigate generation (login_target continue_path))
          else if is_ok response.status
          then accept generation
          else refuse generation response.status)
      else return tt

-- The statements from `try` on.
unfoldable pub load_steps : ℕ → String → String → Action (Unit {0})
load_steps generation request_path continue_path =
    finally
      (catch
        (call (fetch_context generation request_path) >>= use_response generation continue_path)
        (λ _. modify (on_page (if_latest generation (fail_with "无法连接授权服务，请检查网络后重试。")))))
      (on_page (if_latest generation stop_loading))

unfoldable pub load_authorization_context : Action (Unit {0})
load_authorization_context = do
  s ← read
  modify (on_page begin)
  load_steps (s.refs.authorize.request_generation + 1) (context_path s.location.search)
      (authorize_path s.location.search)

unfoldable pub switch_account : Action (Unit {0})
switch_account = do
  modify (on_page (λ p. record p { switching_account = true }))
  _ ← logout false
  modify (λ s. assign (authorize_path s.location.search) s)
