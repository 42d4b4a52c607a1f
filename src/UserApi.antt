-- ===== src/UserApi.antt =====
-- portal/web/app/composables/useUserApi.ts: the session of a user. Every operation is a program over
-- the shared store; `fetch` and `response.json()` are its calls, and a reply has the type that Core's
-- interface gives it. The portal is built with `ssr: false`, so `import.meta.client` is true.
pub mod State
pub mod Session
pub mod Offers
pub mod Pages
pub mod Samples
pub mod Tests
use Prim.Native.String
use State.{
  Notice, success, failure, Refs, Store, Method, get_method, post_method, patch_method, Body,
  no_body, credentials, contact, passwords, Request, Response, Payload, login_payload,
  profile_payload, contact_payload, password_payload, Call, fetch, json, Value,
}
use adscope_identity.Prelude.{
  ℕ, ◌+◌, ◌-◌, String, Bool, true, false, not, ◌||◌, if◌then◌else◌, eqb, leb, ltb, ◌&&◌, Option,
  none, some, or_else, List, ◌∷◌,
}
use adscope_identity.Text.Decimal.{decimal}
use adscope_identity.Text.{trim, truthy}
use adscope_identity.Types.{
  UserProfile, UserLoginResponse, UserContactUpdateResponse, PasswordChangeResponse,
}
use adscope_identity.Async.{
  Failure, error, thrown, Outcome, ok, err, Task, return, throw, ◌>>=◌, ◌>>◌, catch, finally, read,
  modify, call,
}

-- A program of this composable.
abbrev pub Action : Type 0 → Type 0
Action A = Task Store Call Value A

-- `response.ok`
abbrev pub is_ok : ℕ → Bool
is_ok status = leb 200 status && leb status 299

unfoldable pub request_error_message : Failure → String → String
request_error_message (error message) fallback = message
request_error_message thrown fallback = fallback

-- A response as its status line says it.
unfoldable pub status_message : Response → String
status_message r = String.◌++◌ (decimal r.status) (String.◌++◌ " " r.status_text)

abbrev pub is_denied : ℕ → Bool
is_denied status = eqb status 401 || eqb status 403

-- `tokenReady`
abbrev pub token_ready : Store → Bool
token_ready s = truthy (trim s.access_token)

-- `loading`
abbrev pub loading : Store → Bool
loading s = ltb 0 s.pending

abbrev pub clear : Store → Store
clear s = record s { access_token = ""; profile = none; stored_token = none }

abbrev pub notify : Notice → Store → Store
notify n s = record s { notices = n ∷ s.notices }

abbrev pub write_refs : (Refs → Refs) → Store → Store
write_refs f s = record s { refs = f s.refs }

-- `window.location.assign(target)`
abbrev pub assign : String → Store → Store
assign target s = record s {
  location = record (s.location) { assigned = target ∷ s.location.assigned };
}

unfoldable pub load_token : Action String
load_token = do
  s ← read
  let stored = or_else s.stored_token ""
  modify (λ s. record s { access_token = stored })
  return stored

unfoldable pub clear_token : Action (Unit {0})
clear_token = modify clear

abbrev pub raise_pending : Store → Store
raise_pending s = record s { pending = s.pending + 1 }

abbrev pub lower_pending : Store → Store
lower_pending s = record s { pending = s.pending - 1 }

unfoldable pub track_request : {A : Type 0} → Action A → Action A
track_request request = do modify raise_pending; finally request lower_pending

abbrev pub logout_request : Request
logout_request = record {
  method = post_method;
  path = "/api/auth/logout";
  authorization = none;
  json_content = false;
  body = no_body;
}

unfoldable pub logout : Bool → Action (Unit {0})
unfolding track_request
logout show_message =
    finally (catch (do _ ← track_request (call (fetch logout_request)); return tt) (λ _. return tt))
      (λ s. if show_message then notify (success "已退出登录") (clear s) else clear s)

abbrev pub has_body : Body → Bool
has_body no_body = false
has_body _ = true

-- The request of `userFetch`, whose `init` gives the method and the body.
abbrev pub bearer_request : String → Method → Body → String → Request
bearer_request path method body token = record {
  method = method;
  path = path;
  authorization = some (String.◌++◌ "Bearer " (trim token));
  json_content = has_body body;
  body = body;
}

-- `if (!response.ok) { … throw … }` of `userFetch`.
unfoldable pub check_user_response : Response → Action (Unit {0})
check_user_response response =
    if is_ok response.status
    then return tt
    else if is_denied response.status
    then (modify clear >> throw (error "登录已失效，请重新登录"))
    else throw (error (status_message response))

unfoldable pub user_fetch : (p : Payload) → String → Method → Body → Action (Value (json p))
unfolding track_request check_user_response
user_fetch p path method body = do
  s ← read
  if token_ready s
      then track_request (do
        s ← read
        response ← call (fetch (bearer_request path method body s.access_token))
        check_user_response response
        call (json p))
      else throw (error "请先登录")

unfoldable pub load_me : Bool → Action Bool
unfolding user_fetch request_error_message
load_me show_error =
    catch
      (do
        profile ← user_fetch profile_payload "/api/me" get_method no_body
        modify (λ s. record s { profile = some profile })
        return true)
      (λ e. do
        modify (λ s.
            if show_error
            then notify (failure (request_error_message e "无法读取用户资料")) (clear s)
            else clear s)
        return false)

abbrev pub login_request : String → String → Request
login_request username password = record {
  method = post_method;
  path = "/api/auth/login";
  authorization = none;
  json_content = true;
  body = credentials username password;
}

-- `if (!response.ok) { throw … }` of `login`.
unfoldable pub check_login_response : Response → Action (Unit {0})
check_login_response response =
    if is_ok response.status
    then return tt
    else if is_denied response.status
    then throw (error "用户名或密码错误")
    else throw (error (status_message response))

-- The body of the `try` block of `login`.
unfoldable pub login_steps : String → String → Action Bool
unfolding track_request check_login_response load_me
login_steps username password = do
  payload ← track_request (do
    response ← call (fetch (login_request username password))
    check_login_response response
    call (json login_payload))
  modify (λ s. record s {
    access_token = payload.access_token;
    stored_token = some payload.access_token;
  })
  loaded ← load_me false
  if loaded
      then (modify (notify (success "已登录")) >> return true)
      else throw (error "登录成功，但无法读取用户资料")

unfoldable pub login : String → String → Action Bool
unfolding login_steps request_error_message
login username password =
    let trimmed = trim username in
    if not (truthy trimmed) || not (truthy password)
    then (modify (notify (failure "请输入用户名和密码")) >> return false)
    else catch (login_steps trimmed password) (λ e. do
      modify (λ s. notify (failure (request_error_message e "登录失败")) (clear s))
      return false)

-- `profile.value?.telephone ?? null`
abbrev pub telephone_of : Option UserProfile → Option String
telephone_of none = none
telephone_of (some p) = p.telephone

unfoldable pub update_contact : Option String → Option String → Action Bool
unfolding user_fetch request_error_message
update_contact email mobile =
    catch
      (do
        s ← read
        response ←
            user_fetch contact_payload "/api/me/contact" patch_method
              (contact email mobile (telephone_of s.profile))
        modify (λ s. notify (success "联系方式已保存") (record s { profile = some response.profile }))
        return true)
      (λ e. do modify (notify (failure (request_error_message e "联系方式保存失败"))); return false)

unfoldable pub change_password : String → String → Action Bool
unfolding user_fetch request_error_message
change_password current_password new_password =
    if not (truthy current_password) || not (truthy new_password)
    then (modify (notify (failure "请输入当前密码和新密码")) >> return false)
    else catch
        (do
          _ ←
              user_fetch password_payload "/api/me/password" post_method
                (passwords current_password new_password)
          modify (notify (success "密码已修改"))
          return true)
        (λ e. do modify (notify (failure (request_error_message e "密码修改失败"))); return false)
