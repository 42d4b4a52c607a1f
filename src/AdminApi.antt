-- ===== src/AdminApi.antt =====
-- portal/web/app/composables/useAdminApi.ts: the session of an administrator and the data that it
-- shows. Every operation is a program over the shared store; `fetch` and `response.json()` are its
-- calls. `encodeURIComponent` and the message of the engine's `TypeError` are parameters.
pub mod State
pub mod Loads
pub mod Signing
pub mod Clients
pub mod Session
pub mod Reading
pub mod Samples
pub mod Tests
use adscope_identity.Prelude.{
  ℕ, ◌+◌, ◌-◌, String, Bool, true, false, ◌||◌, ◌&&◌, if◌then◌else◌, eqb, Option, none, some, [],
  ◌∷◌,
}
use adscope_identity.Text.{truthy}
use adscope_identity.Async.{
  Failure, error, Task, return, throw, ◌>>=◌, ◌>>◌, catch, finally, read, modify, call,
}
use adscope_identity.UserApi.State.{Notice, success, failure, Response}
use adscope_identity.UserApi.{is_ok, status_message, request_error_message}
use State.{
  Data, Flags, Refs, Store, Method, get_method, Body, no_body, Request, Payload, Call, fetch, json,
  Value,
}

abbrev pub Action : Type 0 → Type 0
Action A = Task Store Call Value A

pub record Platform : Type 0 where
  pub encode_uri_component : String → String
  -- What a read of a property of `undefined` throws.
  pub type_error : String

-- `tokenReady`
abbrev pub token_ready : Store → Bool
token_ready s = s.authenticated && truthy s.csrf_token

-- `directoryLoading`
abbrev pub directory_loading : Flags → Bool
directory_loading f = f.ous_loading || f.users_loading || f.groups_loading

abbrev pub blank_data : Data
blank_data = record {
  domains = [];
  organizational_units = [];
  users = [];
  groups = [];
  sync_domains = [];
  oauth_clients = [];
}

abbrev pub reset_data : Store → Store
reset_data s = record s { content = blank_data }

abbrev pub clear_session : Store → Store
clear_session s = reset_data (record s { csrf_token = ""; authenticated = false })

abbrev pub notify : Notice → Store → Store
notify n s = record s { notices = n ∷ s.notices }

abbrev pub write_content : (Data → Data) → Store → Store
write_content f s = record s { content = f s.content }

abbrev pub write_flags : (Flags → Flags) → Store → Store
write_flags f s = record s { flags = f s.flags }

abbrev pub write_refs : (Refs → Refs) → Store → Store
write_refs f s = record s { refs = f s.refs }

abbrev pub raise_pending : Store → Store
raise_pending s = record s { pending = s.pending + 1 }

abbrev pub lower_pending : Store → Store
lower_pending s = record s { pending = s.pending - 1 }

unfoldable pub track_request : {A : Type 0} → Action A → Action A
track_request request = do modify raise_pending; finally request lower_pending

-- The methods that change nothing; the portal uses neither `HEAD` nor `OPTIONS`.
abbrev pub is_safe : Method → Bool
is_safe get_method = true
is_safe _ = false

abbrev pub has_body : Body → Bool
has_body no_body = false
has_body _ = true

-- The request of `adminFetch` for the token `csrf`.
abbrev pub admin_request : String → Method → Body → String → Request
admin_request path method body csrf = record {
  method = method;
  path = path;
  csrf = if is_safe method then none else some csrf;
  json_content = has_body body;
  body = body;
}

-- `if (!response.ok) { … throw … }` of `adminFetch`.
unfoldable pub check_admin_response : Response → Action (Unit {0})
check_admin_response response =
    if is_ok response.status
    then return tt
    else if eqb response.status 401
    then (modify clear_session >> throw (error "管理会话已失效，请重新输入管理凭证"))
    else throw (error (status_message response))

-- The body of a response, where `none` stands for `undefined`.
unfoldable pub read_body : (p : Payload) → Response → Action (Option (Value (json p)))
read_body p response =
    if eqb response.status 204 then return none else (call (json p) >>= λ v. return (some v))

unfoldable pub admin_fetch :
    (p : Payload) → String → Method → Body → Action (Option (Value (json p)))
unfolding track_request check_admin_response read_body
admin_fetch p path method body = do
  s ← read
  if token_ready s
      then track_request (do
        s ← read
        response ← call (fetch (admin_request path method body s.csrf_token))
        check_admin_response response
        read_body p response)
      else throw (error "请先输入管理凭证")

unfoldable pub run_action : Action (Unit {0}) → Option String → Action (Unit {0})
unfolding request_error_message
run_action action success_message =
    catch
      (do
        action
        modify (λ s. elim success_message [
          | none ↦ s
          | some m ↦ if truthy m then notify (success m) s else s
        ]))
      (λ e. modify (notify (failure (request_error_message e "请求失败"))))

-- A property of a body is read, which throws on `undefined`.
abbrev pub present : {A : Type 0} → Platform → Option A → Action A
present platform none = throw (error platform.type_error)
present platform (some a) = return a
