-- ===== src/UserApi/Session/Operations.antt =====
-- The invariant of the user session in its operations.
use adscope_identity.Prelude.{
  ℕ, String, Bool, true, false, ◌≡◌, refl, ◌⊎◌, inl, inr, Option, none, some, not, or_else, ◌||◌,
}
use adscope_identity.Text.{trim, truthy}
use adscope_identity.Async.{error, ok, err, get, put, ◌>>◌, call}
use adscope_identity.Async.Triples.{
  then_do-Relies, bind-Keeps, finally-Keeps, read-Keeps, call-Keeps, if-Ensures,
}
use adscope_identity.UserApi.State.{
  Store, Response, Payload, fetch, json, Value, Method, Body, success, failure, get_method,
  post_method, patch_method, no_body, contact, passwords, profile_payload, login_payload,
  contact_payload, password_payload,
}
use adscope_identity.UserApi.{
  Action, status_message, telephone_of, token_ready, lower_pending, load_token, clear_token,
  track_request, logout, logout_request, check_user_response, user_fetch, load_me, login_request,
  check_login_response, login_steps, login, update_contact, change_password, is_ok, is_denied,
  request_error_message,
}
use adscope_identity.UserApi.Session.{
  weight, IsSession, IsPermitted, KeepsSession, clear-IsSession, noted-IsSession, dropped-IsSession,
  profiled-IsSession, in_turn, caught, gives, fails, either, changes, lower-Relies, raise-IsSession,
  track_request-Keeps,
}

check_user_response-Keeps : (n : ℕ) (r : Response) → KeepsSession n (check_user_response r)
unfolding check_user_response
check_user_response-Keeps n r = either (is_ok r.status) (gives tt) (
    either (is_denied r.status)
      (in_turn (changes clear-IsSession) (λ _. fails (error "登录已失效，请重新登录")))
      (fails (error (status_message r))))

-- What `userFetch` does with a response.
abbrev reply : (p : Payload) → Response → Action (Value (json p))
reply p response = check_user_response response >> call (json p)

json-IsPermitted : (p : Payload) (m : ℕ) (s : Store) → IsSession m s → IsPermitted (json p) s
json-IsPermitted p m s j = tt

call-json-Keeps : (p : Payload) → KeepsSession 1 (call (json p))
call-json-Keeps p = call-Keeps weight IsSession IsPermitted (json p) (json-IsPermitted p)

reply-Keeps : (p : Payload) (r : Response) → KeepsSession 1 (reply p r)
reply-Keeps p r =
    bind-Keeps weight IsSession IsPermitted 1 (check_user_response r) (λ _. call (json p))
      (check_user_response-Keeps 1 r) (λ _. call-json-Keeps p)

user_fetch-Keeps :
    (p : Payload) (path : String) (method : Method) (body : Body)
    → (path ≡ "/api/me") ⊎ ((path ≡ "/api/me/contact") ⊎ (path ≡ "/api/me/password"))
    → KeepsSession 0 (user_fetch p path method body)
unfolding user_fetch track_request
user_fetch-Keeps p path method body own = record {
  ensures = λ k h s b j.
      if-Ensures weight IsSession IsPermitted (token_ready s) _ _ k s b
        (λ full. (
          inr (refl, full, own),
          raise-IsSession b s j,
          then_do-Relies weight IsSession IsPermitted 1 (reply p)
              (λ o. get (λ u. put (lower_pending u) (k o))) (reply-Keeps p) (lower-Relies k h),
        ))
        (λ _. h (err (error "请先登录")) s b j);
}

pub load_me-Keeps : (b : Bool) → KeepsSession 0 (load_me b)
unfolding load_me
load_me-Keeps b =
    caught
      (in_turn (user_fetch-Keeps profile_payload "/api/me" get_method no_body (inl refl))
        (λ p. in_turn (changes (profiled-IsSession p)) (λ _. gives true)))
      (λ e. in_turn (changes (dropped-IsSession b _)) (λ _. gives false))

check_login_response-Keeps : (n : ℕ) (r : Response) → KeepsSession n (check_login_response r)
unfolding check_login_response
check_login_response-Keeps n r =
    either (is_ok r.status) (gives tt)
      (either (is_denied r.status) (fails (error "用户名或密码错误")) (fails (error (status_message r))))

login_request-Keeps :
    (username password : String) → KeepsSession 1 (call (fetch (login_request username password)))
login_request-Keeps username password =
    call-Keeps weight IsSession IsPermitted (fetch (login_request username password))
      (λ m s j. inl (refl, inl refl))

login_steps-Keeps : (username password : String) → KeepsSession 0 (login_steps username password)
unfolding login_steps
login_steps-Keeps username password =
    in_turn
      (track_request-Keeps _ (
        in_turn (login_request-Keeps username password)
          (λ r. in_turn (check_login_response-Keeps 1 r) (λ _. call-json-Keeps login_payload))))
      (λ payload.
        in_turn
          (changes
            (λ m s j. record { counted = j.counted; stored = inr refl; assigned = j.assigned }))
          (λ _. in_turn (load_me-Keeps false) (λ loaded.
            either loaded (in_turn (changes (noted-IsSession (success "已登录"))) (λ _. gives true))
              (fails (error "登录成功，但无法读取用户资料")))))

pub login-Keeps : (username password : String) → KeepsSession 0 (login username password)
unfolding login
login-Keeps username password =
    either (not (truthy (trim username)) || not (truthy password))
      (in_turn (changes (noted-IsSession _)) (λ _. gives false))
      (caught (login_steps-Keeps (trim username) password) (λ e.
        in_turn (changes (dropped-IsSession true (failure (request_error_message e "登录失败"))))
          (λ _. gives false)))

pub logout-Keeps : (b : Bool) → KeepsSession 0 (logout b)
unfolding logout
logout-Keeps b =
    finally-Keeps weight IsSession IsPermitted 0 _ _
      (caught
        (in_turn
          (track_request-Keeps _ (
            call-Keeps weight IsSession IsPermitted (fetch logout_request)
              (λ m s j. inl (refl, inr refl))))
          (λ _. gives tt))
        (λ _. gives tt))
      (dropped-IsSession b _)

pub update_contact-Keeps :
    (email mobile : Option String) → KeepsSession 0 (update_contact email mobile)
unfolding update_contact
update_contact-Keeps email mobile =
    caught
      (read-Keeps weight IsSession IsPermitted 0 _ (λ s.
        in_turn
          (user_fetch-Keeps contact_payload "/api/me/contact" patch_method
            (contact email mobile (telephone_of s.profile)) (inr (inl refl)))
          (λ r.
            in_turn
              (changes
                (λ m u j. record { counted = j.counted; stored = j.stored; assigned = j.assigned }))
              (λ _. gives true))))
      (λ e. in_turn (changes (noted-IsSession _)) (λ _. gives false))

pub change_password-Keeps : (current next : String) → KeepsSession 0 (change_password current next)
unfolding change_password
change_password-Keeps current next =
    either (not (truthy current) || not (truthy next))
      (in_turn (changes (noted-IsSession _)) (λ _. gives false))
      (caught
        (in_turn
          (user_fetch-Keeps password_payload "/api/me/password" post_method (passwords current next)
            (inr (inr refl)))
          (λ _. in_turn (changes (noted-IsSession _)) (λ _. gives true)))
        (λ e. in_turn (changes (noted-IsSession _)) (λ _. gives false)))

loaded-IsSession :
    (m : ℕ) (s : Store) (o : Option String)
    → s.stored_token ≡ o
    → IsSession m s
    → IsSession m (record s { access_token = or_else o "" })
loaded-IsSession m s none e h = record {
  counted = h.counted;
  stored = inl refl;
  assigned = h.assigned;
}
loaded-IsSession m s (some t) e h = record {
  counted = h.counted;
  stored = inr e;
  assigned = h.assigned;
}

pub load_token-Keeps : KeepsSession 0 load_token
unfolding load_token
load_token-Keeps = record {
  ensures = λ k h s b j. h (ok _) _ b (loaded-IsSession _ s s.stored_token refl j);
}

pub clear_token-Keeps : KeepsSession 0 clear_token
unfolding clear_token
clear_token-Keeps = changes clear-IsSession
